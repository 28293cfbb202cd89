-- ===== src/Types/Wallet.antt =====
-- src/types/wallet.rs: a wallet of the relayer and the configuration of the pool. Counts are `u64`
-- and wrap; the success rate is an `f64`.
use express402_relayer.Common.{
  ℕ, ◌+◌, ◌-◌, ◌%◌, ◌^◌, Bool, true, ◌&&◌, Option, some, ltb, if◌then◌else◌,
}
use express402_relayer.Common.Float.{F64}

pub record WalletPoolConfig : Type 0 where
  pub min_wallets : ℕ
  pub max_wallets : ℕ
  pub balance_threshold : ℕ
  pub rotation_interval : ℕ
  pub health_check_interval : ℕ
  pub max_concurrent_transactions : ℕ
  pub min_balance : ℕ
  pub transaction_timeout : ℕ
  pub retry_attempts : ℕ
  pub retry_delay : ℕ

-- `u64` arithmetic.
abbrev pub u64_mod : ℕ
u64_mod = 2 ^ 64

abbrev pub u64 : ℕ → ℕ
u64 n = n % u64_mod

abbrev pub sub_u64 : ℕ → ℕ → ℕ
sub_u64 a b = (a + u64_mod - b) % u64_mod

module _ (F : F64) where
  open F use {Carrier, of_u64, decimal, div, lt}

  pub record WalletInfo : Type 0 where
    pub address : ℕ
    pub private_key : Option ℕ
    pub balance : ℕ
    pub nonce : ℕ
    pub is_active : Bool
    pub last_used : ℕ
    pub success_rate : Carrier
    pub total_transactions : ℕ
    pub failed_transactions : ℕ

  -- `WalletInfo::new`.
  unfoldable pub new_wallet : ℕ → ℕ → ℕ → WalletInfo
  new_wallet address private_key now = record {
    address = address;
    private_key = some private_key;
    balance = 0;
    nonce = 0;
    is_active = true;
    last_used = now;
    success_rate = decimal 1 0;
    total_transactions = 0;
    failed_transactions = 0;
  }

  unfoldable pub update_success_rate : WalletInfo → WalletInfo
  update_success_rate w =
      if ltb 0 w.total_transactions
      then record w {
        success_rate =
            div (of_u64 (sub_u64 w.total_transactions w.failed_transactions))
              (of_u64 w.total_transactions);
      }
      else w

  unfoldable pub record_transaction : WalletInfo → Bool → ℕ → WalletInfo
  unfolding update_success_rate
  record_transaction w success now = record (update_success_rate counted) { last_used = now }
    where
      counted : WalletInfo
      counted = record w {
        total_transactions = u64 (w.total_transactions + 1);
        failed_transactions =
            if success then w.failed_transactions else u64 (w.failed_transactions + 1);
      }

  unfoldable pub is_healthy : WalletInfo → Bool
  is_healthy w = w.is_active && lt (decimal 8 1) w.success_rate
