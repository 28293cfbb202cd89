-- ===== src/Wallet/Monitor/Causes.antt =====
-- Which alerts the statuses lead to (src/wallet/monitor.rs).
use express402_relayer.Common.{
  ℕ, ◌+◌, ◌^◌, ◌<◌, ◌≡◌, refl, ap, ◌∙◌, sym, inl, inr, Bool, true, false, not, ◌↔◌, Option, none,
  some, String, List, [], ◌∷◌, ◌++◌, ltb, ◌==◌, find, any, any-append, map, nat_eq, arith,
  Bool-cases,
}
use mathlib.Core.List.{append_assoc, append-nil, map-append}
use express402_relayer.Common.Float.{F64}
use express402_relayer.Types.Error.{Message, text, answered, ok}
use express402_relayer.Types.Wallet.{WalletInfo, u64}
use express402_relayer.Wallet.Monitor.{
  WalletHealthStatus, Probe, Findings, raise_if, balance_issue, nonce_issue, WalletMonitor,
  check_wallet_info, inspect, check_wallet_health,
}
use express402_relayer.Wallet.Monitor.Issued.{
  alerts_of, all_alerts, alerts_of-type, alert_statuses_lem,
}
use express402_relayer.Wallet.Monitor.Health.{inspect-Agrees}
use express402_relayer.Wallet.Monitor.Alerts.{
  AlertType, low_balance, high_nonce_gap, low_success_rate, wallet_offline, slow_response,
  WalletAlert, WalletAlertManager, determine_alert_type, check_and_create_alerts,
}

-- An alert type, if something has been found.
abbrev pub only_if : Bool → AlertType → List AlertType
only_if true t = t ∷ []
only_if false t = []

raise_if-type :
    (found : Bool) (issue : Message) (f : Findings) (t : AlertType)
    → determine_alert_type issue ≡ t
    → map determine_alert_type (raise_if found issue f).0
      ≡ map determine_alert_type f.0 ++ only_if found t
unfolding raise_if
raise_if-type true issue f t e = map-append determine_alert_type f.0 (issue ∷ []) ∙ rw e refl
raise_if-type false issue f t e = sym (append-nil _)

abbrev pub is_gap : AlertType → Bool
is_gap high_nonce_gap = true
is_gap low_balance = false
is_gap low_success_rate = false
is_gap slow_response = false
is_gap wallet_offline = false

balance_issue-type : (balance : ℕ) → determine_alert_type (balance_issue balance) ≡ low_balance
unfolding determine_alert_type
balance_issue-type balance = refl

nonce_issue-type :
    (nonce expected : ℕ) → determine_alert_type (nonce_issue nonce expected) ≡ high_nonce_gap
unfolding determine_alert_type
nonce_issue-type nonce expected = refl

all_alerts-type :
    (s : WalletHealthStatus) (fresh : ℕ → ℕ × ℕ)
    → ((s.is_healthy ≡ true) ↔ (s.issues ≡ []))
    → map (λ (x : WalletAlert). x.alert_type) (all_alerts (s ∷ []) fresh)
      ≡ map determine_alert_type s.issues
unfolding all_alerts
all_alerts-type s fresh agrees = elim (Bool-cases s.is_healthy) [
  | inl well ↦ rw (well, agrees.0 well) refl
  | inr ill ↦
      rw (ill, append-nil (alerts_of s.address s.issues fresh))
        (alerts_of-type s.address s.issues fresh)
]

module _ (F : F64) (two_decimals : F.Carrier → String) where
  -- What is wrong with the wallet itself.
  abbrev pub wallet_causes : Option (WalletInfo F) → List AlertType
  wallet_causes none = wallet_offline ∷ []
  wallet_causes (some w) =
      only_if (not w.is_active) wallet_offline
      ++ only_if (F.lt w.success_rate (F.decimal 8 1)) low_success_rate

  -- What is wrong, from the answers of the chain and the wallets.
  abbrev pub causes : WalletMonitor F two_decimals → ℕ → ℕ → ℕ → ℕ → List AlertType
  causes m address balance nonce expected =
      (only_if (ltb balance m.min_balance_threshold) low_balance
        ++ only_if (ltb (u64 (expected + m.max_nonce_gap)) nonce) high_nonce_gap)
      ++ wallet_causes (find (λ (w : WalletInfo F). w.address == address) m.wallets)

  check_wallet_info-type :
      (o : Option (WalletInfo F)) (f : Findings)
      → map determine_alert_type (check_wallet_info F two_decimals o f).0
        ≡ map determine_alert_type f.0 ++ wallet_causes o
  unfolding check_wallet_info determine_alert_type
  check_wallet_info-type none f =
      raise_if-type true (text "Wallet not found in pool" ∷ []) f wallet_offline refl
  check_wallet_info-type (some w) f =
      raise_if-type (F.lt w.success_rate (F.decimal 8 1)) _ _ low_success_rate refl
      ∙ rw
          (raise_if-type (not w.is_active) (text "Wallet is marked as inactive" ∷ []) f
            wallet_offline refl)
          (append_assoc (map determine_alert_type f.0) _ _)

  inspect-causes :
      (m : WalletMonitor F two_decimals) (address balance nonce expected : ℕ)
      → map determine_alert_type (inspect F two_decimals m address balance nonce expected).0
        ≡ causes m address balance nonce expected
  unfolding inspect
  inspect-causes m address balance nonce expected =
      let wallet = find (λ (w : WalletInfo F). w.address == address) m.wallets in
      let poor = ltb balance m.min_balance_threshold in
      let ahead = ltb (u64 (expected + m.max_nonce_gap)) nonce in
      let balance_found = raise_if poor (balance_issue balance) ([], true) in
      check_wallet_info-type wallet (raise_if ahead (nonce_issue nonce expected) balance_found)
      ∙ ap (λ l. l ++ wallet_causes wallet)
          (raise_if-type ahead (nonce_issue nonce expected) balance_found high_nonce_gap
              (nonce_issue-type nonce expected)
            ∙ ap (λ l. l ++ only_if ahead high_nonce_gap)
                (raise_if-type poor (balance_issue balance) ([], true) low_balance
                  (balance_issue-type balance)))

  -- The answers of the chain for one wallet.
  abbrev pub all_answered : ℕ → ℕ → ℕ → ℕ → Probe
  all_answered balance nonce expected now = record {
    balance = answered balance;
    nonce = answered nonce;
    expected_nonce = answered expected;
    now = now;
  }

  -- From the check of one wallet to its alerts: where the chain answers, the types of the alerts are exactly
  -- the causes, in this order: a balance below the threshold, a nonce that is too far ahead, and for the
  -- wallet itself that it is unknown, or that it is inactive and that its rate is low. No alert is about a
  -- slow response, and an inactive wallet and an unknown one give the same type.
  pub check_wallet_health-alerts :
      (m : WalletMonitor F two_decimals) (a : WalletAlertManager F)
      (address balance nonce expected now : ℕ) (fresh : ℕ → ℕ × ℕ)
      → (status : WalletHealthStatus) × (check_wallet_health F two_decimals m address
            (all_answered balance nonce expected now)
          ≡ ok status)
        × (map
              (λ (x : WalletAlert). x.alert_type)
              (check_and_create_alerts F a (status ∷ []) fresh).1
            ≡ causes m address balance nonce expected)
  unfolding check_wallet_health check_and_create_alerts
  check_wallet_health-alerts m a address balance nonce expected now fresh =
      let found = inspect F two_decimals m address balance nonce expected in
      let status : WalletHealthStatus = record {
        address = address;
        is_healthy = found.1;
        balance = balance;
        nonce = nonce;
        last_checked = now;
        issues = found.0;
      } in
      (
        status,
        refl,
        ap
              (λ (r : WalletAlertManager F × List WalletAlert).
                map (λ (x : WalletAlert). x.alert_type) r.1)
              (alert_statuses_lem F a [] (status ∷ []) fresh)
            ∙ all_alerts-type status fresh
                (inspect-Agrees F two_decimals m address balance nonce expected)
            ∙ inspect-causes m address balance nonce expected,
      )

  any-wallet_causes : (o : Option (WalletInfo F)) → any is_gap (wallet_causes o) ≡ false
  unfolding any
  any-wallet_causes none = refl
  any-wallet_causes (some w) = both (not w.is_active) (F.lt w.success_rate (F.decimal 8 1))
    where
      both :
          (a b : Bool) → any is_gap (only_if a wallet_offline ++ only_if b low_success_rate) ≡ false
      both true true = refl
      both true false = refl
      both false true = refl
      both false false = refl

  any-low_balance : (poor : Bool) → any is_gap (only_if poor low_balance ++ []) ≡ false
  unfolding any
  any-low_balance true = refl
  any-low_balance false = refl

  -- The check of the nonce compares two readings of the same count of the chain: where they agree, and the
  -- sum with the allowed gap fits in 64 bits, no alert about a gap of nonces is made.
  check_wallet_health-no_gap :
      (m : WalletMonitor F two_decimals) (a : WalletAlertManager F) (address balance nonce now : ℕ)
      (fresh : ℕ → ℕ × ℕ)
      → nonce + m.max_nonce_gap < 2 ^ 64
      → (status : WalletHealthStatus) × (check_wallet_health F two_decimals m address
            (all_answered balance nonce nonce now)
          ≡ ok status)
        × (any is_gap (
              map
                (λ (x : WalletAlert). x.alert_type)
                (check_and_create_alerts F a (status ∷ []) fresh).1)
            ≡ false)
  check_wallet_health-no_gap m a address balance nonce now fresh fits =
      let (status, e, types) =
        check_wallet_health-alerts m a address balance nonce nonce now fresh in
      let wallet = find (λ (w : WalletInfo F). w.address == address) m.wallets in
      let poor = ltb balance m.min_balance_threshold in
      let level : ltb (u64 (nonce + m.max_nonce_gap)) nonce ≡ false = ground arith in
      (
        status,
        e,
        ap (any is_gap) types
            ∙ rw level (
                any-append is_gap (only_if poor low_balance ++ []) (wallet_causes wallet)
                ∙ rw (any-low_balance poor) (any-wallet_causes wallet)),
      )
