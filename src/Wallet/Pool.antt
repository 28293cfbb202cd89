-- ===== src/Wallet/Pool.antt =====
-- src/wallet/pool.rs: `WalletPool`. A method takes the state and returns the new one beside its
-- result; each `Utc::now()` is an argument. `address_of` derives the address of a private key. The
-- draw of the random generator is an argument.
mod Select
mod Rotate
mod Invariant
pub mod Total
mod Tests
use express402_relayer.Common.{
  ℕ, ◌+◌, ◌-◌, ◌/◌, ◌%◌, ◌^◌, Bool, true, false, not, ◌||◌, Option, none, some, List, [], ◌∷◌, ◌++◌,
  ltb, ◌==◌, if◌then◌else◌, length, retain, any, find, count_if, get_elem?, Map, lookup, insert,
  remove, update, update_first, nat_eq,
}
use express402_relayer.Common.Float.{F64}
use express402_relayer.Types.Error.{Message, wallet_pool, Result, ok, err, panic, ◌>>=◌}
use express402_relayer.Types.Wallet.{
  WalletInfo, WalletPoolConfig, u64, u64_mod, new_wallet, record_transaction, is_healthy,
}

pub record WalletUsageStats : Type 0 where
  pub address : ℕ
  pub total_transactions : ℕ
  pub successful_transactions : ℕ
  pub failed_transactions : ℕ
  pub last_used : ℕ
  pub average_gas_used : ℕ
  pub total_gas_used : ℕ

pub data RotationStrategy : Type 0 where
  round_robin least_used best_performance random : RotationStrategy

-- The loops of `select_round_robin` and `select_least_used` over the addresses, with the best
-- candidate so far and its key: a wallet whose key is smaller takes its place.
unfoldable pub select_min : (WalletUsageStats → ℕ) → Map ℕ WalletUsageStats → ℕ → ℕ → List ℕ → ℕ
select_min key usage best best_key [] = best
select_min key usage best best_key (address ∷ addresses) = elim (lookup address usage) [
  | none ↦ select_min key usage best best_key addresses
  | some stats ↦
      select_min key usage (if ltb (key stats) best_key then address else best)
        (if ltb (key stats) best_key then key stats else best_key) addresses
]

-- `addresses[0]`, which panics on an empty slice.
unfoldable pub select_round_robin : Map ℕ WalletUsageStats → ℕ → List ℕ → Result ℕ
unfolding select_min
select_round_robin usage now [] = panic
select_round_robin usage now (a ∷ rest) =
    ok (select_min (λ stats. stats.last_used) usage a now (a ∷ rest))

unfoldable pub select_least_used : Map ℕ WalletUsageStats → List ℕ → Result ℕ
unfolding select_min
select_least_used usage [] = panic
select_least_used usage (a ∷ rest) =
    ok (select_min (λ stats. stats.total_transactions) usage a (2 ^ 64 - 1) (a ∷ rest))

-- `addresses[index]` for the index that the generator draws.
unfoldable pub select_random : ℕ → List ℕ → Result ℕ
select_random index addresses = elim (get_elem? addresses index) [ none ↦ panic | some a ↦ ok a ]

module _ (F : F64) where
  open F use {Carrier, of_u64, decimal, div, lt}

  pub record WalletPool : Type 0 where
    pub wallets : List (WalletInfo F)
    pub active_wallets : List ℕ
    pub wallet_usage : Map ℕ WalletUsageStats
    pub config : WalletPoolConfig
    pub rotation_strategy : RotationStrategy
    pub permits : ℕ

  unfoldable pub new : WalletPoolConfig → WalletPool
  new config = record {
    wallets = [];
    active_wallets = [];
    wallet_usage = [];
    config = config;
    rotation_strategy = round_robin;
    permits = config.max_concurrent_transactions;
  }

  unfoldable pub success_rate_of : WalletUsageStats → Carrier
  success_rate_of stats =
      if ltb 0 stats.total_transactions
      then div (of_u64 stats.successful_transactions) (of_u64 stats.total_transactions)
      else decimal 1 0

  -- The loop of `select_best_performance`: a wallet with a higher rate takes the place of the best.
  unfoldable pub select_best : Map ℕ WalletUsageStats → ℕ → Carrier → List ℕ → ℕ
  unfolding success_rate_of
  select_best usage best best_rate [] = best
  select_best usage best best_rate (address ∷ addresses) = elim (lookup address usage) [
    | none ↦ select_best usage best best_rate addresses
    | some stats ↦
        select_best usage (if lt best_rate (success_rate_of stats) then address else best)
          (if lt best_rate (success_rate_of stats) then success_rate_of stats else best_rate)
          addresses
  ]

  unfoldable pub select_best_performance : Map ℕ WalletUsageStats → List ℕ → Result ℕ
  unfolding select_best
  select_best_performance usage [] = panic
  select_best_performance usage (a ∷ rest) = ok (select_best usage a (decimal 0 0) (a ∷ rest))

  -- The `match` on the strategy in `get_next_wallet`.
  unfoldable pub select : RotationStrategy → WalletPool → ℕ → ℕ → Result ℕ
  unfolding select_round_robin select_least_used select_best_performance select_random
  select round_robin p now draw = select_round_robin p.wallet_usage now p.active_wallets
  select least_used p now draw = select_least_used p.wallet_usage p.active_wallets
  select best_performance p now draw = select_best_performance p.wallet_usage p.active_wallets
  select random p now draw = select_random draw p.active_wallets

  unfoldable pub get_next_wallet : WalletPool → ℕ → ℕ → Result (Option (WalletInfo F))
  unfolding select
  get_next_wallet p now draw = elim p.active_wallets [
    | [] ↦ ok none
    | _ ∷ _ ↦ do
      selected_address ← select p.rotation_strategy p now draw
      ok (find (λ (w : WalletInfo F). w.address == selected_address) p.wallets)
  ]

  unfoldable pub update_wallet_usage : WalletPool → ℕ → ℕ → WalletPool
  update_wallet_usage p address now = record p {
    wallet_usage =
        update address (λ (stats : WalletUsageStats). record stats { last_used = now })
          p.wallet_usage;
  }

  -- `closed` is the error of a semaphore that has been closed; the permit is dropped on return.
  unfoldable pub acquire_wallet :
      WalletPool → Option Message → ℕ → ℕ → ℕ → WalletPool × Result (Option (WalletInfo F))
  unfolding get_next_wallet update_wallet_usage
  acquire_wallet p (some closed) now draw used = (p, err (wallet_pool closed))
  acquire_wallet p none now draw used = elim (get_next_wallet p now draw) [
    | ok (some w) ↦ (update_wallet_usage p w.address used, ok (some w))
    | ok none ↦ (p, ok none)
    | err e ↦ (p, err e)
    | panic ↦ (p, panic)
  ]

  -- The bookkeeping of `release_wallet`. The average is a division by the new total, which is 0 only
  -- where the count has wrapped, after 2 ^ 64 transactions of one wallet; the source panics there, with
  -- the other fields written and the average as it was.
  unfoldable pub count_transaction : Bool → ℕ → ℕ → WalletUsageStats → WalletUsageStats
  count_transaction success gas_used now stats = record stats {
    total_transactions = total;
    successful_transactions =
        if success then u64 (stats.successful_transactions + 1) else stats.successful_transactions;
    failed_transactions =
        if success then stats.failed_transactions else u64 (stats.failed_transactions + 1);
    last_used = now;
    total_gas_used = gas;
    average_gas_used = if total == 0 then stats.average_gas_used else gas / total;
  }
    where
      total : ℕ
      total = u64 (stats.total_transactions + 1)

      gas : ℕ
      gas = u64 (stats.total_gas_used + gas_used)

  unfoldable pub release_wallet : WalletPool → ℕ → Bool → ℕ → ℕ → ℕ → WalletPool
  unfolding count_transaction record_transaction
  release_wallet p address success gas_used wallet_now stats_now = record p {
    wallets =
        update_first (λ (w : WalletInfo F). w.address == address)
          (λ w. record_transaction F w success wallet_now) p.wallets;
    wallet_usage = update address (count_transaction success gas_used stats_now) p.wallet_usage;
  }

  -- The address is derived from the key before the call.
  unfoldable pub add_wallet : WalletPool → ℕ → ℕ → ℕ → ℕ → WalletPool × ℕ
  unfolding new_wallet
  add_wallet p address private_key wallet_now stats_now = (
    record p {
      wallets = p.wallets ++ new_wallet F address private_key wallet_now ∷ [];
      active_wallets =
          if any (λ a. a == address) p.active_wallets
          then p.active_wallets
          else p.active_wallets ++ address ∷ [];
      wallet_usage = insert address fresh p.wallet_usage;
    },
    address,
  )
    where
      fresh : WalletUsageStats
      fresh = record {
        address = address;
        total_transactions = 0;
        successful_transactions = 0;
        failed_transactions = 0;
        last_used = stats_now;
        average_gas_used = 0;
        total_gas_used = 0;
      }

  unfoldable pub remove_wallet : WalletPool → ℕ → WalletPool
  remove_wallet p address = record p {
    wallets = retain (λ (w : WalletInfo F). not (w.address == address)) p.wallets;
    active_wallets = retain (λ a. not (a == address)) p.active_wallets;
    wallet_usage = remove address p.wallet_usage;
  }

  unfoldable pub get_wallet_stats : WalletPool → ℕ → Option WalletUsageStats
  get_wallet_stats p address = lookup address p.wallet_usage

  unfoldable pub is_wallet_healthy : WalletPool → ℕ → Bool
  unfolding is_healthy
  is_wallet_healthy p address = elim (find (λ (w : WalletInfo F). w.address == address) p.wallets) [
    | none ↦ false
    | some w ↦ is_healthy F w
  ]

  pub record WalletPoolStats : Type 0 where
    pub total_wallets : ℕ
    pub active_wallets : ℕ
    pub healthy_wallets : ℕ
    pub total_transactions : ℕ
    pub overall_success_rate : Carrier
    pub available_permits : ℕ

  -- `+=` of a count over the usage of the wallets.
  unfoldable pub sum_usage : (WalletUsageStats → ℕ) → ℕ → Map ℕ WalletUsageStats → ℕ
  sum_usage count acc [] = acc
  sum_usage count acc ((address, u) ∷ rest) = sum_usage count (u64 (acc + count u)) rest

  unfoldable pub get_pool_stats : WalletPool → WalletPoolStats
  unfolding is_healthy sum_usage
  get_pool_stats p =
      let total = sum_usage (λ (u : WalletUsageStats). u.total_transactions) 0 p.wallet_usage in
      let successful =
        sum_usage (λ (u : WalletUsageStats). u.successful_transactions) 0 p.wallet_usage in
      record {
        total_wallets = length p.wallets;
        active_wallets = length p.active_wallets;
        healthy_wallets = count_if (is_healthy F) p.wallets;
        total_transactions = total;
        overall_success_rate =
            if ltb 0 total then F.div (F.of_u64 successful) (F.of_u64 total) else F.decimal 1 0;
        available_permits = p.permits;
      }

  unfoldable pub get_healthy_wallets : WalletPool → List (WalletInfo F)
  unfolding is_healthy
  get_healthy_wallets p = retain (is_healthy F) p.wallets

  unfoldable pub set_rotation_strategy : WalletPool → RotationStrategy → WalletPool
  set_rotation_strategy p strategy = record p { rotation_strategy = strategy }
