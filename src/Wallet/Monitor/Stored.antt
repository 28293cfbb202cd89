-- ===== src/Wallet/Monitor/Stored.antt =====
-- What a round of checks stores (src/wallet/monitor.rs, `check_all_wallets`), and the active alerts.
use express402_relayer.Common.{
  ℕ, ◌≡◌, refl, subst, ◌∙◌, sym, inl, inr, Bool, true, false, not, some, String, List, [], ◌∷◌,
  ◌==◌, ==_iff, any, retain, update_first, lookup, lookup-insert, nat_eq, arith, Bool-cases,
}
use express402_relayer.Common.Float.{F64}
use express402_relayer.Types.Error.{Result, ok, err, panic, Result-cases}
use express402_relayer.Types.Wallet.{WalletInfo}
use express402_relayer.Wallet.Monitor.{
  WalletHealthStatus, Probe, WalletMonitor, check_wallet_health, store_status, push_status,
  check_each, check_all_wallets, get_health_status,
}
use express402_relayer.Wallet.Monitor.Alerts.{
  WalletAlert, WalletAlertManager, get_active_alerts, resolve_alert,
}

module _ (F : F64) (two_decimals : F.Carrier → String) where
  abbrev pub has_wallet : List (WalletInfo F) → ℕ → Bool
  has_wallet ws a = any (λ (w : WalletInfo F). w.address == a) ws

  -- The check of a wallet reads the wallets and the limits, and not the stored statuses.
  abbrev SameLimits : WalletMonitor F two_decimals → WalletMonitor F two_decimals → Type 0
  SameLimits m n =
      (n.wallets ≡ m.wallets)
      × (n.min_balance_threshold ≡ m.min_balance_threshold)
      × (n.max_nonce_gap ≡ m.max_nonce_gap)

  push_status-ok :
      (s : WalletHealthStatus) (x : WalletMonitor F two_decimals × Result (List WalletHealthStatus))
      (n : WalletMonitor F two_decimals) (l : List WalletHealthStatus)
      → push_status F two_decimals s x ≡ (n, ok l)
      → (rest : List WalletHealthStatus) × (x ≡ (n, ok rest)) × (l ≡ s ∷ rest)
  push_status-ok s (m, ok r) n l e = (r, ground arith, ground arith)
  push_status-ok s (m, err x) n l e = cc
  push_status-ok s (m, panic) n l e = cc

  stored_check :
      (m : WalletMonitor F two_decimals) (b : ℕ) (s : WalletHealthStatus) (a : ℕ) (p : Probe)
      → check_wallet_health F two_decimals (store_status F two_decimals m b s) a p
        ≡ check_wallet_health F two_decimals m a p
  unfolding check_wallet_health store_status
  stored_check m b s a p = refl

  -- The first step of a round that succeeds.
  check_each-cons :
      (m n : WalletMonitor F two_decimals) (w : WalletInfo F) (ws : List (WalletInfo F))
      (probes : ℕ → Probe) (l : List WalletHealthStatus)
      → check_each F two_decimals m (w ∷ ws) probes ≡ (n, ok l)
      → (s : WalletHealthStatus) × (rest : List WalletHealthStatus) × (check_wallet_health F
            two_decimals m w.address
            (probes w.address)
          ≡ ok s)
        × (check_each F two_decimals (store_status F two_decimals m w.address s) ws probes
            ≡ (n, ok rest))
  unfolding check_each
  check_each-cons m n w ws probes l e =
      elim (Result-cases (check_wallet_health F two_decimals m w.address (probes w.address))) [
        | inl (s, found) ↦
            let (rest, later, _) =
              push_status-ok s
                (check_each F two_decimals (store_status F two_decimals m w.address s) ws probes) n
                l (ground arith) in
            (s, rest, found, later)
        | inr (inl (x, failed)) ↦ absurd (ground arith)
        | inr (inr broken) ↦ absurd (ground arith)
      ]

  check_each-other :
      (ws : List (WalletInfo F)) (m n : WalletMonitor F two_decimals) (probes : ℕ → Probe)
      (l : List WalletHealthStatus) (a : ℕ)
      → check_each F two_decimals m ws probes ≡ (n, ok l)
      → has_wallet ws a ≡ false
      → lookup a n.health_status ≡ lookup a m.health_status
  unfolding check_each any store_status
  check_each-other [] m n probes l a e h = ground arith
  check_each-other (w ∷ ws) m n probes l a e h =
      let (s, rest, found, later) = check_each-cons m n w ws probes l e in
      ground (
        arith,
        check_each-other ws (store_status F two_decimals m w.address s) n probes rest a later,
        lookup-insert w.address a s m.health_status,
      )

  check_each-stored :
      (ws : List (WalletInfo F)) (m n : WalletMonitor F two_decimals) (probes : ℕ → Probe)
      (l : List WalletHealthStatus) (a : ℕ)
      → check_each F two_decimals m ws probes ≡ (n, ok l)
      → has_wallet ws a ≡ true
      → (s : WalletHealthStatus) × (check_wallet_health F two_decimals m a (probes a) ≡ ok s)
        × (lookup a n.health_status ≡ some s)
  unfolding check_each any store_status
  check_each-stored [] m n probes l a e h = absurd (ground arith)
  check_each-stored (w ∷ ws) m n probes l a e h =
      let (s, rest, found, later) = check_each-cons m n w ws probes l e in
      let m' = store_status F two_decimals m w.address s in
      elim (Bool-cases (has_wallet ws a)) [
        | inl again ↦
            let (s', found', stored) = check_each-stored ws m' n probes rest a later again in
            (s', sym (stored_check m w.address s a (probes a)) ∙ found', stored)
        | inr last ↦
            let same : w.address ≡ a = (==_iff w.address a).0 (ground arith) in
            (
              s,
              subst (λ b. check_wallet_health F two_decimals m b (probes b) ≡ ok s) same found,
              check_each-other ws m' n probes rest a later last
                  ∙ lookup-insert w.address a s m.health_status
                  ∙ rw ((==_iff w.address a).1 same) refl,
            )
      ]

  -- A round of checks that succeeds leaves for each wallet the status that its own check gives, whatever
  -- the checks of the others have stored before, and for every other address what was there.
  check_all_wallets-stored :
      (m n : WalletMonitor F two_decimals) (probes : ℕ → Probe) (l : List WalletHealthStatus)
      (a b : ℕ)
      → check_all_wallets F two_decimals m probes ≡ (n, ok l)
      → has_wallet m.wallets a ≡ true
      → has_wallet m.wallets b ≡ false
      → (s : WalletHealthStatus) × (check_wallet_health F two_decimals m a (probes a) ≡ ok s)
        × (get_health_status F two_decimals n a ≡ some s)
        × (get_health_status F two_decimals n b ≡ get_health_status F two_decimals m b)
  unfolding check_all_wallets get_health_status
  check_all_wallets-stored m n probes l a b e h k =
      let (s, found, stored) = check_each-stored m.wallets m n probes l a e h in
      (s, found, stored, check_each-other m.wallets m n probes l b e k)

module _ (F : F64) where
  -- An alert has the id.
  abbrev pub has_id : ℕ → WalletAlert → Bool
  has_id id a = a.id == id

  -- The ids differ.
  abbrev pub Distinct : List WalletAlert → Type 0
  Distinct [] = Unit {0}
  Distinct (a ∷ rest) = (any (has_id a.id) rest ≡ false) × Distinct rest

  retain_absent :
      (l : List WalletAlert) (id : ℕ)
      → any (has_id id) l ≡ false
      → retain (λ a. not (has_id id a)) (retain (λ (a : WalletAlert). not a.resolved) l)
        ≡ retain (λ (a : WalletAlert). not a.resolved) l
  unfolding any retain
  retain_absent [] id h = refl
  retain_absent (a ∷ l) id h = ground (arith, retain_absent l id)

  update_first-active :
      (l : List WalletAlert) (id : ℕ)
      → Distinct l
      → retain
          (λ (a : WalletAlert). not a.resolved)
          (update_first (has_id id) (λ (a : WalletAlert). record a { resolved = true }) l)
        ≡ retain (λ a. not (has_id id a)) (retain (λ (a : WalletAlert). not a.resolved) l)
  unfolding retain update_first
  update_first-active [] id d = refl
  update_first-active (a ∷ l) id d = elim (Bool-cases (has_id id a)) [
    | inl hit ↦
        let absent : any (has_id id) l ≡ false =
          subst (λ i. any (has_id i) l ≡ false) ((==_iff a.id id).0 hit) d.0 in
        let dropped = retain_absent l id absent in rw hit (ground arith)
    | inr miss ↦ rw miss (ground (arith, update_first-active l id d.1))
  ]

  -- Resolving an alert takes it out of the active ones and changes nothing else, where the ids of the history
  -- differ.
  resolve_alert-active :
      (m : WalletAlertManager F) (id : ℕ)
      → Distinct m.alert_history
      → get_active_alerts F (resolve_alert F m id)
        ≡ retain (λ a. not (has_id id a)) (get_active_alerts F m)
  unfolding get_active_alerts resolve_alert
  resolve_alert-active m id d = update_first-active m.alert_history id d
