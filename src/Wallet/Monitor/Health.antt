-- ===== src/Wallet/Monitor/Health.antt =====
-- What makes a wallet healthy (src/wallet/monitor.rs, `check_wallet_health`).
use express402_relayer.Common.{
  ℕ, ◌+◌, ◌≤◌, ◌≡◌, ◌≢◌, ◌↔◌, inl, inr, refl, ap, ◌∙◌, Bool, true, false, not, ◌&&◌, Option, none,
  some, String, List, [], ◌∷◌, ◌++◌, ltb, ◌==◌, find, nat_eq, arith, Option-cases,
}
use express402_relayer.Common.Float.{F64}
use express402_relayer.Types.Error.{Message, text, answered, ok}
use express402_relayer.Types.Wallet.{WalletInfo, u64}
use express402_relayer.Wallet.Monitor.{
  WalletHealthStatus, Findings, raise_if, balance_issue, nonce_issue, WalletMonitor,
  check_wallet_info, inspect, check_wallet_health,
}

-- The flag is up exactly where no issue has been pushed.
abbrev Agrees : Findings → Type 0
Agrees f = (f.1 ≡ true) ↔ (f.0 ≡ [])

snoc_ne : (l : List Message) (m : Message) → l ++ m ∷ [] ≢ []
snoc_ne [] m e = cc
snoc_ne (x ∷ l) m e = cc

raise_if-Agrees :
    (found : Bool) (issue : Message) (f : Findings) → Agrees f → Agrees (raise_if found issue f)
unfolding raise_if
raise_if-Agrees true issue f h = ((λ e. absurd (ground arith)), (λ e. absurd (snoc_ne f.0 issue e)))
raise_if-Agrees false issue f h = h

-- A finding lowers the flag, and nothing raises it.
raise_if-healthy :
    (found : Bool) (issue : Message) (f : Findings)
    → (raise_if found issue f).1 ≡ (not found && f.1)
unfolding raise_if
raise_if-healthy true issue f = refl
raise_if-healthy false issue f = refl

module _ (F : F64) (two_decimals : F.Carrier → String) where
  abbrev fits : Option (WalletInfo F) → Bool
  fits none = false
  fits (some w) = w.is_active && not (F.lt w.success_rate (F.decimal 8 1))

  check_wallet_info-healthy :
      (o : Option (WalletInfo F)) (f : Findings)
      → (check_wallet_info F two_decimals o f).1 ≡ (fits o && f.1)
  unfolding check_wallet_info
  check_wallet_info-healthy none f = raise_if-healthy true (text "Wallet not found in pool" ∷ []) f
  check_wallet_info-healthy (some w) f = ground (
    arith,
    raise_if-healthy (F.lt w.success_rate (F.decimal 8 1)) _ _,
    raise_if-healthy (not w.is_active) _ f,
  )

  pub inspect-Agrees :
      (m : WalletMonitor F two_decimals) (address balance nonce expected : ℕ)
      → Agrees (inspect F two_decimals m address balance nonce expected)
  unfolding inspect
  inspect-Agrees m address balance nonce expected =
      info (find (λ (w : WalletInfo F). w.address == address) m.wallets) _ (
        raise_if-Agrees (ltb (u64 (expected + m.max_nonce_gap)) nonce) _ _
          (raise_if-Agrees (ltb balance m.min_balance_threshold) _ _ ((λ _. refl), (λ _. refl))))
    where
      info :
          (o : Option (WalletInfo F)) (f : Findings)
          → Agrees f
          → Agrees (check_wallet_info F two_decimals o f)
      info none f h = raise_if-Agrees true _ f h
      info (some w) f h =
          raise_if-Agrees (F.lt w.success_rate (F.decimal 8 1)) _ _
            (raise_if-Agrees (not w.is_active) _ f h)

  inspect-healthy :
      (m : WalletMonitor F two_decimals) (address balance nonce expected : ℕ)
      → (inspect F two_decimals m address balance nonce expected).1 ≡ (
          fits (find (λ (w : WalletInfo F). w.address == address) m.wallets)
          && (not (ltb (u64 (expected + m.max_nonce_gap)) nonce)
              && (not (ltb balance m.min_balance_threshold) && true)))
  unfolding inspect
  inspect-healthy m address balance nonce expected =
      let balance_found =
        raise_if (ltb balance m.min_balance_threshold) (balance_issue balance) ([], true) in
      let both_found =
        raise_if (ltb (u64 (expected + m.max_nonce_gap)) nonce) (nonce_issue nonce expected)
          balance_found in
      check_wallet_info-healthy (find (λ (w : WalletInfo F). w.address == address) m.wallets)
        both_found
      ∙ ap (λ b. fits (find (λ (w : WalletInfo F). w.address == address) m.wallets) && b)
          (raise_if-healthy (ltb (u64 (expected + m.max_nonce_gap)) nonce)
              (nonce_issue nonce expected) balance_found
            ∙ ap (λ b. not (ltb (u64 (expected + m.max_nonce_gap)) nonce) && b)
                (raise_if-healthy (ltb balance m.min_balance_threshold) (balance_issue balance)
                  ([], true)))

  -- A wallet that is known, funded, in step with the chain, active and mostly successful.
  pub record IsHealthy (m : WalletMonitor F two_decimals) (address balance nonce expected : ℕ)
      : Type 0 where
    pub wallet : WalletInfo F
    pub known : find (λ (w : WalletInfo F). w.address == address) m.wallets ≡ some wallet
    pub active : wallet.is_active ≡ true
    pub successful : F.lt wallet.success_rate (F.decimal 8 1) ≡ false
    pub in_step : nonce ≤ u64 (expected + m.max_nonce_gap)
    pub funded : m.min_balance_threshold ≤ balance

  inspect-IsHealthy :
      (m : WalletMonitor F two_decimals) (address balance nonce expected : ℕ)
      → ((inspect F two_decimals m address balance nonce expected).1 ≡ true)
        ↔ IsHealthy m address balance nonce expected
  inspect-IsHealthy m address balance nonce expected =
      let flag = inspect-healthy m address balance nonce expected in
      (
        (λ e. elim (Option-cases (find (λ (w : WalletInfo F). w.address == address) m.wallets)) [
          | inl missing ↦ absurd (ground arith)
          | inr (w, found) ↦ record {
            wallet = w;
            known = found;
            active = ground arith;
            successful = ground arith;
            in_step = ground arith;
            funded = ground arith;
          }
        ]),
        (λ h.
            let found = h.known in
            let a = h.active in
            let s = h.successful in let i = h.in_step in let f = h.funded in ground arith),
      )

  -- With the answers of the chain the check gives a status, which is healthy exactly where the wallet is
  -- known, active, successful in at least 8 of 10 transactions, funded to the threshold and at most the
  -- allowed gap of nonces ahead, and which lists an issue exactly where it is not healthy.
  check_wallet_health-IsHealthy :
      (m : WalletMonitor F two_decimals) (address balance nonce expected now : ℕ)
      → (status : WalletHealthStatus) × (check_wallet_health F two_decimals m address (record {
        balance = answered balance;
        nonce = answered nonce;
        expected_nonce = answered expected;
        now = now;
      })
          ≡ ok status)
        × ((status.is_healthy ≡ true) ↔ IsHealthy m address balance nonce expected)
        × ((status.is_healthy ≡ true) ↔ (status.issues ≡ []))
  unfolding check_wallet_health
  check_wallet_health-IsHealthy m address balance nonce expected now = (
    _,
    refl,
    inspect-IsHealthy m address balance nonce expected,
    inspect-Agrees m address balance nonce expected,
  )
