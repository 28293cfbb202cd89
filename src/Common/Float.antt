-- ===== src/Common/Float.antt =====
-- `f64`: the type and the operations that the code uses, as a parameter of the components that
-- compute with it. `decimal m e` is the literal m / 10 ^ e.
use Prim.Native.Nat.{ℕ}
use mathlib.Core.Bool.{Bool}

pub record F64 : Type 1 where
  pub Carrier : Type 0
  pub of_u64 : ℕ → Carrier
  pub to_u64 : Carrier → ℕ
  pub decimal : ℕ → ℕ → Carrier
  pub add : Carrier → Carrier → Carrier
  pub mul : Carrier → Carrier → Carrier
  pub div : Carrier → Carrier → Carrier
  pub min : Carrier → Carrier → Carrier
  pub lt : Carrier → Carrier → Bool
  pub le : Carrier → Carrier → Bool
  pub is_nan : Carrier → Bool
