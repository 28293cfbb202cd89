-- ===== src/Utils/Validation/Hex.antt =====
-- How amounts are read (src/utils/validation.rs, `parse_u256`).
use express402_relayer.Common.{
  ℕ, ◌+◌, ◌-◌, ◌*◌, ◌^◌, ◌≤◌, ◌<◌, ◌≡◌, refl, sym, ap, subst, ◌∙◌, false, some, String, List, [],
  ◌∷◌, ◌==◌, length, All, arith,
}
use express402_relayer.Common.Text.{codes, starts_with}
use express402_relayer.Types.Error.{ok}
use express402_relayer.Utils.Validation.Texts.{Parsers, without_prefix, parse_u256}

-- A digit of base 10, as its code point.
abbrev pub IsDigit : ℕ → Type 0
IsDigit c = (48 ≤ c) × (c ≤ 57)

-- The number that digits stand for in a base, after those before them.
abbrev pub value_after : ℕ → ℕ → List ℕ → ℕ
value_after base before [] = before
value_after base before (c ∷ rest) = value_after base (before * base + (c - 48)) rest

abbrev pub value : ℕ → List ℕ → ℕ
value base digits = value_after base 0 digits

value_after-lt : (a b : ℕ) (ds : List ℕ) → a < b → value_after 10 a ds < value_after 16 b ds
value_after-lt a b [] h = h
value_after-lt a b (c ∷ ds) h =
    value_after-lt (a * 10 + (c - 48)) (b * 16 + (c - 48)) ds (omega arith)

without_prefix-digits : (ds : List ℕ) → All IsDigit ds → without_prefix ds ≡ ds
unfolding without_prefix starts_with
without_prefix-digits [] h = refl
without_prefix-digits (c ∷ []) h = ground arith
without_prefix-digits (c ∷ d ∷ ds) h = ground (arith, h.0, h.1.0)

-- A text of at least two digits of base 10 that does not begin with 0 is read in base 16, so the amount is
-- larger than the number that is written. (It fits in 256 bits, and the parser of base 16 reads such digits.)
pub parse_u256-hex :
    (P : Parsers) (s : String) (c d : ℕ) (rest : List ℕ)
    → ((ds : List ℕ) → All IsDigit ds → value 16 ds < 2 ^ 256 → P.from_hex ds ≡ some (value 16 ds))
    → codes s ≡ c ∷ d ∷ rest
    → All IsDigit (codes s)
    → 48 < c
    → value 16 (codes s) < 2 ^ 256
    → (parse_u256 P s ≡ ok (value 16 (codes s))) × (value 10 (codes s) < value 16 (codes s))
unfolding parse_u256
parse_u256-hex P s c d rest reads written digits leading small =
    let some_digits : (length (codes s) == 0) ≡ false =
      ap (λ ds. length ds == 0) written ∙ ground arith in
    (
      rw (without_prefix-digits (codes s) digits, some_digits, reads (codes s) digits small) refl,
      subst (λ ds. value 10 ds < value 16 ds) (sym written)
          (value_after-lt ((0 * 10 + (c - 48)) * 10 + (d - 48))
            ((0 * 16 + (c - 48)) * 16 + (d - 48)) rest (omega arith)),
    )
