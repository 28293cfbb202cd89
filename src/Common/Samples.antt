-- ===== src/Common/Samples.antt =====
-- Instances of the parameters for tests: fixed-point numbers with three decimals for `f64`, and the
-- conversions of `U256` by comparison.
use Prim.Native.Nat.{ℕ, ◌+◌, ◌*◌, ◌/◌, ◌^◌, ◌≤◌, ◌<◌}
use mathlib.Core.Path.{◌≡◌}
use mathlib.Core.Bool.{false}
use mathlib.Core.Option.{Option, none, some}
use native.Mathlib.Omega.{arith}
use express402_relayer.Common.Float.{F64}
use express402_relayer.Common.Uint.{Uint}
use express402_relayer.Common.Tests.{ltb, leb, ◌==◌, if◌then◌else◌}

abbrev pub fixed : F64
fixed = record {
  Carrier = ℕ;
  of_u64 = λ n. n * 1000;
  to_u64 = λ x. x / 1000;
  decimal = λ m e. m * 1000 / 10 ^ e;
  add = λ x y. x + y;
  mul = λ x y. x * y / 1000;
  div = λ x y. if y == 0 then 0 else x * 1000 / y;
  min = λ x y. if leb x y then x else y;
  lt = ltb;
  le = leb;
  is_nan = λ _. false;
}

-- `n`, if it is below the bound.
abbrev pub below : ℕ → ℕ → Option ℕ
below bound n = if ltb n bound then some n else none

pub below-fits : (bound n : ℕ) → n < bound → below bound n ≡ some n
below-fits bound n h = ground arith

pub below-none : (bound n : ℕ) → bound ≤ n → below bound n ≡ none
below-none bound n h = ground arith

abbrev pub uint : Uint
uint = record {
  to_u64 = below (2 ^ 64);
  to_u128 = below (2 ^ 128);
  u64_fits = below-fits (2 ^ 64);
  u64_panics = below-none (2 ^ 64);
  u128_fits = below-fits (2 ^ 128);
  u128_panics = below-none (2 ^ 128);
}
