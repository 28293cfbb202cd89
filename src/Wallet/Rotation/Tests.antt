-- ===== src/Wallet/Rotation/Tests.antt =====
-- The theorems about rotations at concrete wallets (src/wallet/rotation.rs).
use express402_relayer.Common.{
  ℕ, ◌+◌, ◌≡◌, refl, List, [], ◌∷◌, sort_by, count_if, any, lookup, nat_eq, arith,
}
use express402_relayer.Common.Samples.{fixed}
use express402_relayer.Types.Error.{ok}
use express402_relayer.Types.Wallet.{WalletInfo, new_wallet}
use express402_relayer.Wallet.Rotation.{
  RotationStrategy, round_robin, least_used, WalletRotator, new, rotate_wallets, rotate_least_used,
}
use express402_relayer.Wallet.Rotation.Cover.{occurrences}
use express402_relayer.Wallet.Rotation.Counts.{total_of, IsReady, rotate_wallets-counts}
use express402_relayer.Wallet.Rotation.Decision.{rotate_wallets-repeats}

abbrev wallet : ℕ → ℕ → WalletInfo fixed
wallet address count = record (new_wallet fixed address 7 0) { total_transactions = count }

abbrev two_wallets : List (WalletInfo fixed)
two_wallets = wallet 1 150 ∷ wallet 2 30 ∷ []

abbrev rotator : RotationStrategy → WalletRotator fixed
rotator strategy =
    new fixed two_wallets
      (record {
        strategy = strategy;
        interval = 300;
        min_usage_before_rotation = 10;
        max_usage_before_rotation = 100;
        performance_threshold = 800;
      })
      1000

clock : ℕ → ℕ
clock i = 2000 + i

rotator-IsReady : (s : RotationStrategy) → IsReady fixed (rotator s)
unfolding new any
rotator-IsReady s = record { numbers = refl; room = omega arith }

rotate_wallets-counts_example :
    (l : List ℕ) × ((rotate_wallets fixed (λ l. l) (rotator least_used) clock 2010).1 ≡ ok l)
    × (occurrences 2 l ≡ 1)
    × (total_of fixed (rotate_wallets fixed (λ l. l) (rotator least_used) clock 2010).0 2 ≡ 1)
unfolding new new_wallet count_if lookup
rotate_wallets-counts_example =
    rotate_wallets-counts fixed (λ l. l) (rotator least_used) clock 2010 2 (λ l a. refl)
      (rotator-IsReady least_used) (omega arith)

rotate_wallets-repeats_example :
    (rotate_wallets fixed
      (λ l. l)
      (rotate_wallets fixed (λ l. l) (rotator round_robin) clock 2010).0
      clock
      2020).1
    ≡ (rotate_wallets fixed (λ l. l) (rotator round_robin) clock 2010).1
unfolding new
rotate_wallets-repeats_example =
    rotate_wallets-repeats fixed (λ l. l) (λ l. l) (rotator round_robin) clock clock 2010 2020 refl
      (omega arith)

least_used_first : rotate_least_used fixed two_wallets ≡ 2 ∷ 1 ∷ []
unfolding rotate_least_used sort_by new_wallet
least_used_first = refl
