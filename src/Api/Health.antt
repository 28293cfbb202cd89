-- ===== src/Api/Health.antt =====
-- src/api/gateway.rs: `health_check`. What the database, the cache and the provider answer are arguments;
-- the statistics of the wallets and of the queue never fail.
mod Unavailable
mod Tests
use express402_relayer.Common.{
  ℕ, Bool, ◌||◌, Option, none, some, String, List, [], ◌∷◌, ltb, if◌then◌else◌, Map, insert,
  string_eq,
}
use express402_relayer.Common.Float.{F64}
use express402_relayer.Types.Error.{
  RelayerError, Message, text, num, display, Answer, answered, refused,
}
use express402_relayer.Wallet.Pool.{WalletPool, WalletPoolStats, get_pool_stats}
use express402_relayer.Queue.Scheduler.{TaskScheduler, QueueStats, get_queue_stats}

pub record ServiceStatus : Type 0 where
  pub status : String
  pub message : Option Message

-- `overall_status` and `services`.
abbrev pub Checked : Type 0
Checked = String × Map String ServiceStatus

abbrev pub report : String → String → Message → Map String ServiceStatus → Map String ServiceStatus
report service status message services =
    insert service (record { status = status; message = some message }) services

unfoldable pub check_database : Option RelayerError → Checked → Checked
check_database none (overall, services) =
    (overall, report "database" "healthy" (text "Database connection successful" ∷ []) services)
check_database (some e) (overall, services) =
    ("unhealthy", report "database" "unhealthy" (text "Database error: " ∷ display e) services)

unfoldable pub check_cache : Option RelayerError → Checked → Checked
check_cache none (overall, services) =
    (overall, report "cache" "healthy" (text "Cache system operational" ∷ []) services)
check_cache (some e) (overall, services) = (
  if string_eq.beq overall "healthy" then "degraded" else overall,
  report "cache" "unhealthy" (text "Cache error: " ∷ display e) services,
)

unfoldable pub check_provider : Answer ℕ → Checked → Checked
check_provider (answered chain_id) (overall, services) =
    (overall, report "ethereum_provider" "healthy" (text "Chain ID: " ∷ num chain_id ∷ []) services)
check_provider (refused m) (overall, services) =
    ("degraded", report "ethereum_provider" "unhealthy" (text "Provider error: " ∷ m) services)

unfoldable pub check_queue : QueueStats → Checked → Checked
check_queue stats (overall, services) = (
  overall,
  report "queue" "healthy"
      (text "Pending: "
        ∷ num stats.pending_tasks
        ∷ text ", Processing: "
        ∷ num stats.processing_tasks
        ∷ [])
      services,
)

unfoldable pub status_code : String → ℕ
status_code overall =
    if string_eq.beq overall "healthy" || string_eq.beq overall "degraded" then 200 else 503

module _ (F : F64) where
  unfoldable pub check_wallets : WalletPoolStats F → Checked → Checked
  check_wallets stats (overall, services) =
      let message =
        text "Healthy wallets: "
        ∷ num stats.healthy_wallets
        ∷ text "/"
        ∷ num stats.total_wallets
        ∷ [] in
      if ltb 0 stats.healthy_wallets
      then (overall, report "wallet_pool" "healthy" message services)
      else ("degraded", report "wallet_pool" "degraded" message services)

  -- The status of the response, the overall status and the services.
  unfoldable pub health_check :
      WalletPool F
      → TaskScheduler
      → Option RelayerError
      → Option RelayerError
      → Answer ℕ
      → ℕ × Checked
  unfolding check_database check_wallets check_queue check_cache check_provider status_code
      get_pool_stats get_queue_stats
  health_check pool scheduler database cache provider =
      let checked = check_provider provider (
        check_cache cache (
          check_queue (get_queue_stats scheduler)
            (check_wallets (get_pool_stats F pool) (check_database database ("healthy", []))))) in
      (status_code checked.0, checked)
