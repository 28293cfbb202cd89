-- ===== src/Wallet/Monitor/Alerts.antt =====
-- src/wallet/monitor.rs: `WalletAlertManager`. Each alert takes a fresh id and the time from `fresh`. A
-- message contains a pattern if one of its texts does: the numbers between them print no letters of the
-- patterns that are looked for.
use express402_relayer.Common.{
  ℕ, suc, Bool, true, false, not, String, List, [], ◌∷◌, ◌++◌, ◌==◌, if◌then◌else◌, any, retain,
  update_first,
}
use express402_relayer.Common.Float.{F64}
use express402_relayer.Common.Text.{str_contains}
use express402_relayer.Types.Error.{Piece, Message, text, num, debug, printed}
use express402_relayer.Wallet.Monitor.{WalletHealthStatus}

pub data AlertType : Type 0 where
  low_balance high_nonce_gap low_success_rate slow_response wallet_offline : AlertType

pub data AlertSeverity : Type 0 where
  low medium high critical : AlertSeverity

pub record WalletAlert : Type 0 where
  pub id : ℕ
  pub wallet_address : ℕ
  pub alert_type : AlertType
  pub message : Message
  pub severity : AlertSeverity
  pub timestamp : ℕ
  pub resolved : Bool

unfoldable pub piece_contains : String → Piece → Bool
unfolding str_contains
piece_contains pattern (text s) = str_contains s pattern
piece_contains pattern (num n) = false
piece_contains pattern (debug n) = false
piece_contains pattern (printed s) = false

unfoldable pub determine_alert_type : Message → AlertType
unfolding piece_contains any
determine_alert_type message =
    if any (piece_contains "Low balance") message
    then low_balance
    else if any (piece_contains "Nonce gap") message
    then high_nonce_gap
    else if any (piece_contains "success rate") message
    then low_success_rate
    else if any (piece_contains "response") message
    then slow_response
    else wallet_offline

module _ (F : F64) where
  pub record AlertThresholds : Type 0 where
    pub min_balance : ℕ
    pub max_nonce_gap : ℕ
    pub min_success_rate : F.Carrier
    pub max_response_time : ℕ

  pub record WalletAlertManager : Type 0 where
    pub alert_thresholds : AlertThresholds
    pub alert_history : List WalletAlert

  unfoldable pub new : AlertThresholds → WalletAlertManager
  new thresholds = record { alert_thresholds = thresholds; alert_history = [] }

  unfoldable pub create_alert :
      WalletAlertManager → ℕ → Message → ℕ × ℕ → WalletAlertManager × WalletAlert
  unfolding determine_alert_type
  create_alert m address message (id, now) =
      (record m { alert_history = m.alert_history ++ alert ∷ [] }, alert)
    where
      alert : WalletAlert
      alert = record {
        id = id;
        wallet_address = address;
        alert_type = determine_alert_type message;
        message = message;
        severity = medium;
        timestamp = now;
        resolved = false;
      }

  -- The loop over the issues of one status: the alerts are added to those so far.
  unfoldable pub alert_issues :
      WalletAlertManager
      → List WalletAlert
      → ℕ
      → List Message
      → (ℕ → ℕ × ℕ)
      → WalletAlertManager × List WalletAlert × (ℕ → ℕ × ℕ)
  unfolding create_alert
  alert_issues m new_alerts address [] fresh = (m, new_alerts, fresh)
  alert_issues m new_alerts address (issue ∷ rest) fresh =
      let (m', alert) = create_alert m address issue (fresh 0) in
      alert_issues m' (new_alerts ++ alert ∷ []) address rest (λ i. fresh (suc i))

  -- The loop over the statuses.
  unfoldable pub alert_statuses :
      WalletAlertManager
      → List WalletAlert
      → List WalletHealthStatus
      → (ℕ → ℕ × ℕ)
      → WalletAlertManager × List WalletAlert
  unfolding alert_issues
  alert_statuses m new_alerts [] fresh = (m, new_alerts)
  alert_statuses m new_alerts (status ∷ rest) fresh =
      let (m', alerts, fresh') =
        if not status.is_healthy
        then alert_issues m new_alerts status.address status.issues fresh
        else (m, new_alerts, fresh) in
      alert_statuses m' alerts rest fresh'

  unfoldable pub check_and_create_alerts :
      WalletAlertManager
      → List WalletHealthStatus
      → (ℕ → ℕ × ℕ)
      → WalletAlertManager × List WalletAlert
  unfolding alert_statuses
  check_and_create_alerts m statuses fresh = alert_statuses m [] statuses fresh

  unfoldable pub get_active_alerts : WalletAlertManager → List WalletAlert
  get_active_alerts m = retain (λ (a : WalletAlert). not a.resolved) m.alert_history

  unfoldable pub resolve_alert : WalletAlertManager → ℕ → WalletAlertManager
  resolve_alert m alert_id = record m {
    alert_history =
        update_first (λ (a : WalletAlert). a.id == alert_id)
          (λ (a : WalletAlert). record a { resolved = true }) m.alert_history;
  }
