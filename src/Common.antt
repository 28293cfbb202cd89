-- ===== src/Common.antt =====
-- The names that the components share: the libraries', passed on, and those of the children.
mod Tests
mod Lists
mod Maps
mod Sort
pub mod Float
pub mod Text
pub mod Uint
pub mod Samples
pub use Tests.*
pub use Prim.Native.Nat.{ℕ, zero, suc, ◌+◌, ◌-◌, ◌*◌, ◌/◌, ◌%◌, ◌^◌, ◌≤◌, ◌<◌, compare, Ordering}
pub use Prim.Native.String.{String}
pub use mathlib.Core.Path.{◌≡◌, refl, sym, ap, subst, ◌∙◌}
pub use mathlib.Core.Logic.{◌≢◌, ◌↔◌, ◌⊎◌, inl, inr}
pub use mathlib.Core.Bool.{Bool, true, false, ◌&&◌, ◌||◌, not}
pub use mathlib.Core.Option.{Option, none, some}
pub use mathlib.Core.List.{List, [], ◌∷◌, ◌++◌, map, Perm, Mem}
pub use native.Mathlib.Omega.{arith}
unfoldable pub use Lists.{
  length, get_elem?, update_first, retain, any, find, take_first, count_if, All,
}
unfoldable pub use Sort.{sort_by}
unfoldable pub use Maps.{Map, lookup, insert, remove, update, contains_key, retain_values, Unique}
pub use Lists.*
pub use Maps.*
pub use Sort.*
