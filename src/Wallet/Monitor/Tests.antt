-- ===== src/Wallet/Monitor/Tests.antt =====
-- The theorems about the monitor at concrete wallets (src/wallet/monitor.rs).
use express402_relayer.Common.{ℕ, ◌*◌, ◌≡◌, Bool, true, false, String, [], ◌∷◌, find, map, nat_eq}
use express402_relayer.Common.Samples.{fixed}
use express402_relayer.Types.Error.{text, ok}
use express402_relayer.Types.Wallet.{WalletInfo, new_wallet}
use express402_relayer.Wallet.Monitor.{
  WalletHealthStatus, Probe, WalletMonitor, new, check_wallet_health, check_all_wallets,
  balance_issue,
}
use express402_relayer.Wallet.Monitor.Alerts
use express402_relayer.Wallet.Monitor.Alerts.{
  WalletAlert, WalletAlertManager, check_and_create_alerts, get_active_alerts, resolve_alert,
  create_alert, low_balance, wallet_offline, medium,
}
use express402_relayer.Wallet.Monitor.Causes.{all_answered, check_wallet_health-alerts}

-- How a rate prints does not matter here.
abbrev two_decimals : ℕ → String
two_decimals x = "50.00"

abbrev wallet : ℕ → Bool → WalletInfo fixed
wallet address is_active = record (new_wallet fixed address 7 0) { is_active = is_active }

abbrev monitor : WalletMonitor fixed two_decimals
monitor = new fixed two_decimals (wallet 1 true ∷ wallet 2 false ∷ []) 60 100 5

abbrev manager : WalletAlertManager fixed
manager = Alerts.new fixed (record {
  min_balance = 100;
  max_nonce_gap = 5;
  min_success_rate = 800;
  max_response_time = 30;
})

abbrev fresh : ℕ → ℕ × ℕ
fresh i = (i, 1000)

-- Wallet 2 is inactive and has too little.
check_wallet_health-alerts_example :
    (status : WalletHealthStatus) × (check_wallet_health fixed two_decimals monitor 2
        (all_answered fixed two_decimals 50 9 8 60)
      ≡ ok status)
    × (map
          (λ (x : WalletAlert). x.alert_type)
          (check_and_create_alerts fixed manager (status ∷ []) fresh).1
        ≡ low_balance ∷ wallet_offline ∷ [])
unfolding new new_wallet find
check_wallet_health-alerts_example =
    check_wallet_health-alerts fixed two_decimals monitor manager 2 50 9 8 60 fresh

abbrev ill : WalletHealthStatus
ill = record {
  address = 2;
  is_healthy = false;
  balance = 50;
  nonce = 9;
  last_checked = 60;
  issues = balance_issue 50 ∷ [];
}

abbrev probes : ℕ → Probe
probes address = all_answered fixed two_decimals (address * 100) 4 4 70

abbrev checked : WalletMonitor fixed two_decimals
checked = (check_all_wallets fixed two_decimals monitor probes).0

abbrev two_alerts : WalletAlertManager fixed
two_alerts = record manager { alert_history = alert 0 ∷ alert 1 ∷ [] }
  where
    alert : ℕ → WalletAlert
    alert id = record {
      id = id;
      wallet_address = 2;
      alert_type = low_balance;
      message = text "Low balance: " ∷ [];
      severity = medium;
      timestamp = 1000;
      resolved = false;
    }
