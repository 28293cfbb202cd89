-- ===== src/Common/Text.antt =====
-- `str::contains`.
use Prim.Native.Nat.{ℕ}
use Prim.Native.Char.{code}
use Prim.Native.String.{String}
use mathlib.Core.Bool.{Bool, true, false, ◌&&◌, ◌||◌}
use mathlib.Core.List.{List, [], ◌∷◌}
use express402_relayer.Common.Tests.{◌==◌}

-- The code points of a text.
abbrev pub codes : String → List ℕ
codes String.[] = []
codes (String.◌∷◌ c s) = code c ∷ codes s

unfoldable pub starts_with : List ℕ → List ℕ → Bool
starts_with s [] = true
starts_with [] (c ∷ pattern) = false
starts_with (d ∷ s) (c ∷ pattern) = d == c && starts_with s pattern

unfoldable pub occurs_in : List ℕ → List ℕ → Bool
unfolding starts_with
occurs_in pattern [] = starts_with [] pattern
occurs_in pattern (c ∷ s) = starts_with (c ∷ s) pattern || occurs_in pattern s

unfoldable pub str_contains : String → String → Bool
unfolding occurs_in
str_contains s pattern = occurs_in (codes pattern) (codes s)
