-- ===== src/Common/Uint.antt =====
-- `U256::to` of the number library: a value that fits is converted, and any other panics (`none`).
use Prim.Native.Nat.{ℕ, ◌^◌, ◌≤◌, ◌<◌}
use mathlib.Core.Path.{◌≡◌}
use mathlib.Core.Option.{Option, none, some}

pub record Uint : Type 0 where
  pub to_u64 : ℕ → Option ℕ
  pub to_u128 : ℕ → Option ℕ
  pub u64_fits : (n : ℕ) → n < 2 ^ 64 → to_u64 n ≡ some n
  pub u64_panics : (n : ℕ) → 2 ^ 64 ≤ n → to_u64 n ≡ none
  pub u128_fits : (n : ℕ) → n < 2 ^ 128 → to_u128 n ≡ some n
  pub u128_panics : (n : ℕ) → 2 ^ 128 ≤ n → to_u128 n ≡ none
