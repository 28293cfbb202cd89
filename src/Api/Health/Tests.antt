-- ===== src/Api/Health/Tests.antt =====
-- The theorem about the health check at a concrete pool (src/api/gateway.rs, `health_check`).
use express402_relayer.Types.Wallet.{WalletPoolConfig}
use express402_relayer.Wallet.Pool
use express402_relayer.Wallet.Pool.{WalletPool}
use express402_relayer.Queue.Scheduler

abbrev config : WalletPoolConfig
config = record {
  min_wallets = 1;
  max_wallets = 5;
  balance_threshold = 0;
  rotation_interval = 60;
  health_check_interval = 60;
  max_concurrent_transactions = 4;
  min_balance = 0;
  transaction_timeout = 60;
  retry_attempts = 3;
  retry_delay = 1;
}
