-- ===== src/Wallet/Pool/Tests.antt =====
-- The theorems about the pool at concrete wallets (src/wallet/pool.rs).
use express402_relayer.Common.{
  ℕ, ◌≡◌, ◌≢◌, refl, true, none, some, List, [], ◌∷◌, lookup, nat_eq, any, find, update, Map, arith,
}
use express402_relayer.Common.Samples.{fixed}
use express402_relayer.Types.Error.{ok}
use express402_relayer.Types.Wallet.{WalletInfo, WalletPoolConfig}
use express402_relayer.Wallet.Pool.{
  WalletPool, WalletUsageStats, round_robin, least_used, select_round_robin, select_least_used, new,
  add_wallet, set_rotation_strategy, acquire_wallet, get_next_wallet,
}
use express402_relayer.Wallet.Pool.Select.{is_in}
use express402_relayer.Wallet.Pool.Invariant.{Call, adds, sets, Inv, run, run-new-Inv}
use express402_relayer.Wallet.Pool.Total.{get_next_wallet-active}

abbrev usage : ℕ → ℕ → ℕ → WalletUsageStats
usage address count last_used = record {
  address = address;
  total_transactions = count;
  successful_transactions = count;
  failed_transactions = 0;
  last_used = last_used;
  average_gas_used = 0;
  total_gas_used = 0;
}

abbrev two_usages : Map ℕ WalletUsageStats
two_usages = (1, usage 1 3 20) ∷ (2, usage 2 5 10) ∷ []

oldest_is_two : select_round_robin two_usages 30 (1 ∷ 2 ∷ []) ≡ ok 2
unfolding select_round_robin lookup
oldest_is_two = refl

fewest_is_one : select_least_used two_usages (1 ∷ 2 ∷ []) ≡ ok 1
unfolding select_least_used lookup
fewest_is_one = refl

cons_not_nil : (x : ℕ) (xs : List ℕ) → (x ∷ xs) ≢ []
cons_not_nil x xs e = cc

abbrev config : WalletPoolConfig
config = record {
  min_wallets = 1;
  max_wallets = 5;
  balance_threshold = 0;
  rotation_interval = 60;
  health_check_interval = 60;
  max_concurrent_transactions = 4;
  min_balance = 0;
  transaction_timeout = 60;
  retry_attempts = 3;
  retry_delay = 1;
}

abbrev wallet : ℕ → WalletInfo fixed
wallet address = record {
  address = address;
  private_key = some address;
  balance = 0;
  nonce = 0;
  is_active = true;
  last_used = 5;
  success_rate = 1000;
  total_transactions = 0;
  failed_transactions = 0;
}

abbrev pool : Map ℕ WalletUsageStats → WalletPool fixed
pool used = record {
  wallets = wallet 1 ∷ wallet 2 ∷ [];
  active_wallets = 1 ∷ 2 ∷ [];
  wallet_usage = used;
  config = config;
  rotation_strategy = round_robin;
  permits = 4;
}

-- After the wallet 2, and then the wallet 1, has been acquired.
abbrev pool_once : WalletPool fixed
pool_once = pool ((1, usage 1 3 20) ∷ (2, usage 2 5 31) ∷ [])

abbrev pool_twice : WalletPool fixed
pool_twice = pool ((1, usage 1 3 41) ∷ (2, usage 2 5 31) ∷ [])

first_is_two :
    acquire_wallet fixed (pool two_usages) none 30 0 31 ≡ (pool_once, ok (some (wallet 2)))
unfolding acquire_wallet lookup update find
first_is_two = refl

second_is_one : acquire_wallet fixed pool_once none 40 0 41 ≡ (pool_twice, ok (some (wallet 1)))
unfolding acquire_wallet lookup update find
second_is_one = refl

abbrev calls : List (Call fixed)
calls = adds 1 11 2 3 ∷ adds 2 12 4 5 ∷ sets least_used ∷ []

run-new-Inv_example : Inv fixed (run fixed (new fixed config) calls)
run-new-Inv_example = run-new-Inv fixed config calls

get_next_wallet-active_example :
    (w : WalletInfo fixed) × (get_next_wallet fixed (run fixed (new fixed config) calls) 30 1
      ≡ ok (some w))
    × (is_in (run fixed (new fixed config) calls).active_wallets w.address ≡ true)
unfolding run new add_wallet set_rotation_strategy any
get_next_wallet-active_example =
    get_next_wallet-active fixed config calls 30 1 (cons_not_nil 1 (2 ∷ [])) (omega arith)
