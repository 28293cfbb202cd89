-- ===== src/Wallet/Monitor.antt =====
-- src/wallet/monitor.rs: `WalletMonitor`, which checks the wallets against the chain. What the provider
-- answers during the check of one wallet, and the time at its end, are a `Probe`. `two_decimals` prints a
-- rate. The alerts are in Wallet/Monitor/Alerts.
mod Health
mod Stored
mod Issued
mod Causes
pub mod Alerts
mod Tests
use express402_relayer.Common.{
  ℕ, ◌+◌, ◌/◌, Bool, true, false, not, Option, none, some, String, List, [], ◌∷◌, ◌++◌, ltb, ◌==◌,
  if◌then◌else◌, length, find, count_if, retain, map, update_first, Map, lookup, insert, nat_eq,
}
use express402_relayer.Common.Float.{F64}
use express402_relayer.Types.Error.{
  Message, text, num, printed, ethereum, Answer, answered, refused, Result, ok, err, panic, ◌>>=◌,
}
use express402_relayer.Types.Wallet.{WalletInfo, u64, sub_u64}

pub record WalletHealthStatus : Type 0 where
  pub address : ℕ
  pub is_healthy : Bool
  pub balance : ℕ
  pub nonce : ℕ
  pub last_checked : ℕ
  pub issues : List Message

-- `get_expected_nonce` asks the chain again.
pub record Probe : Type 0 where
  pub balance : Answer ℕ
  pub nonce : Answer ℕ
  pub expected_nonce : Answer ℕ
  pub now : ℕ

-- `map_err` into an `Ethereum` error with the text of the provider's.
abbrev pub get_wallet_balance : Answer ℕ → Result ℕ
get_wallet_balance (answered balance) = ok balance
get_wallet_balance (refused m) = err (ethereum m)

abbrev pub get_wallet_nonce : Answer ℕ → Result ℕ
get_wallet_nonce (answered nonce) = ok nonce
get_wallet_nonce (refused m) = err (ethereum m)

abbrev pub get_expected_nonce : Answer ℕ → Result ℕ
get_expected_nonce a = get_wallet_nonce a

-- The issues that have been pushed, and the flag `is_healthy`.
abbrev pub Findings : Type 0
Findings = List Message × Bool

unfoldable pub raise_if : Bool → Message → Findings → Findings
raise_if found issue (issues, healthy) =
    if found then (issues ++ issue ∷ [], false) else (issues, healthy)

-- The texts of two issues.
abbrev pub balance_issue : ℕ → Message
balance_issue balance = text "Low balance: " ∷ num balance ∷ text " wei" ∷ []

abbrev pub nonce_issue : ℕ → ℕ → Message
nonce_issue nonce expected_nonce =
    text "Nonce gap too large: " ∷ num nonce ∷ text " vs " ∷ num expected_nonce ∷ []

module _ (F : F64) (two_decimals : F.Carrier → String) where
  open F use {Carrier, decimal, mul, lt}

  pub record WalletMonitor : Type 0 where
    pub wallets : List (WalletInfo F)
    pub health_status : Map ℕ WalletHealthStatus
    pub check_interval : ℕ
    pub min_balance_threshold : ℕ
    pub max_nonce_gap : ℕ

  unfoldable pub new : List (WalletInfo F) → ℕ → ℕ → ℕ → WalletMonitor
  new wallets check_interval min_balance_threshold max_nonce_gap = record {
    wallets = wallets;
    health_status = [];
    check_interval = check_interval;
    min_balance_threshold = min_balance_threshold;
    max_nonce_gap = max_nonce_gap;
  }

  -- The checks of the wallet itself.
  unfoldable pub check_wallet_info : Option (WalletInfo F) → Findings → Findings
  unfolding raise_if
  check_wallet_info none f = raise_if true (text "Wallet not found in pool" ∷ []) f
  check_wallet_info (some wallet) f =
      raise_if (lt wallet.success_rate (decimal 8 1))
        (text "Low success rate: "
          ∷ printed (two_decimals (mul wallet.success_rate (decimal 100 0)))
          ∷ text "%"
          ∷ [])
        (raise_if (not wallet.is_active) (text "Wallet is marked as inactive" ∷ []) f)

  -- What `check_wallet_health` finds, in its order.
  unfoldable pub inspect : WalletMonitor → ℕ → ℕ → ℕ → ℕ → Findings
  unfolding raise_if check_wallet_info
  inspect m address balance nonce expected_nonce =
      check_wallet_info (find (λ (w : WalletInfo F). w.address == address) m.wallets) (
        raise_if (ltb (u64 (expected_nonce + m.max_nonce_gap)) nonce)
          (nonce_issue nonce expected_nonce)
          (raise_if (ltb balance m.min_balance_threshold) (balance_issue balance) ([], true)))

  unfoldable pub check_wallet_health : WalletMonitor → ℕ → Probe → Result WalletHealthStatus
  unfolding inspect
  check_wallet_health m address p = do
    balance ← get_wallet_balance p.balance
    nonce ← get_wallet_nonce p.nonce
    expected_nonce ← get_expected_nonce p.expected_nonce
    ok (record {
      address = address;
      is_healthy = (inspect m address balance nonce expected_nonce).1;
      balance = balance;
      nonce = nonce;
      last_checked = p.now;
      issues = (inspect m address balance nonce expected_nonce).0;
    })

  unfoldable pub store_status : WalletMonitor → ℕ → WalletHealthStatus → WalletMonitor
  store_status m address status = record m { health_status = insert address status m.health_status }

  abbrev pub push_status :
      WalletHealthStatus
      → WalletMonitor × Result (List WalletHealthStatus)
      → WalletMonitor × Result (List WalletHealthStatus)
  push_status status (m, ok statuses) = (m, ok (status ∷ statuses))
  push_status status (m, err e) = (m, err e)
  push_status status (m, panic) = (m, panic)

  -- The loop of `check_all_wallets` over the wallets, with what is read during the check of each; the
  -- first error ends it, and what has been stored stays.
  unfoldable pub check_each :
      WalletMonitor
      → List (WalletInfo F)
      → (ℕ → Probe)
      → WalletMonitor × Result (List WalletHealthStatus)
  unfolding check_wallet_health store_status
  check_each m [] probes = (m, ok [])
  check_each m (wallet ∷ rest) probes =
      elim (check_wallet_health m wallet.address (probes wallet.address)) [
        | ok status ↦
            push_status status (check_each (store_status m wallet.address status) rest probes)
        | err e ↦ (m, err e)
        | panic ↦ (m, panic)
      ]

  unfoldable pub check_all_wallets :
      WalletMonitor → (ℕ → Probe) → WalletMonitor × Result (List WalletHealthStatus)
  unfolding check_each
  check_all_wallets m probes = check_each m m.wallets probes

  unfoldable pub get_health_status : WalletMonitor → ℕ → Option WalletHealthStatus
  get_health_status m address = lookup address m.health_status

  unfoldable pub get_all_health_statuses : WalletMonitor → List WalletHealthStatus
  get_all_health_statuses m = map (λ (p : ℕ × WalletHealthStatus). p.1) m.health_status

  unfoldable pub get_unhealthy_wallets : WalletMonitor → List ℕ
  unfolding get_all_health_statuses
  get_unhealthy_wallets m =
      map (λ (s : WalletHealthStatus). s.address)
        (retain (λ (s : WalletHealthStatus). not s.is_healthy) (get_all_health_statuses m))

  unfoldable pub update_wallet_status : WalletMonitor → ℕ → Bool → WalletMonitor
  update_wallet_status m address is_active = record m {
    wallets =
        update_first (λ (w : WalletInfo F). w.address == address)
          (λ (w : WalletInfo F). record w { is_active = is_active }) m.wallets;
  }

  pub record WalletMonitoringStats : Type 0 where
    pub total_wallets : ℕ
    pub healthy_wallets : ℕ
    pub unhealthy_wallets : ℕ
    pub total_issues : ℕ
    pub check_interval_seconds : ℕ
    pub min_balance_threshold : ℕ

  unfoldable pub sum_issues : List WalletHealthStatus → ℕ
  sum_issues [] = 0
  sum_issues (s ∷ rest) = length s.issues + sum_issues rest

  -- `check_interval` is in nanoseconds.
  unfoldable pub get_monitoring_stats : WalletMonitor → WalletMonitoringStats
  unfolding get_all_health_statuses sum_issues
  get_monitoring_stats m =
      let statuses = get_all_health_statuses m in
      let healthy = count_if (λ (s : WalletHealthStatus). s.is_healthy) statuses in
      record {
        total_wallets = length m.wallets;
        healthy_wallets = healthy;
        unhealthy_wallets = sub_u64 (length m.wallets) healthy;
        total_issues = sum_issues statuses;
        check_interval_seconds = m.check_interval / 1_000_000_000;
        min_balance_threshold = m.min_balance_threshold;
      }

  unfoldable pub set_check_interval : WalletMonitor → ℕ → WalletMonitor
  set_check_interval m interval = record m { check_interval = interval }

  unfoldable pub set_min_balance_threshold : WalletMonitor → ℕ → WalletMonitor
  set_min_balance_threshold m threshold = record m { min_balance_threshold = threshold }

  unfoldable pub set_max_nonce_gap : WalletMonitor → ℕ → WalletMonitor
  set_max_nonce_gap m gap = record m { max_nonce_gap = gap }
