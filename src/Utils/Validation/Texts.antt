-- ===== src/Utils/Validation/Texts.antt =====
-- src/utils/validation.rs: the texts of a request. Parsing is the libraries': of an address, of the digits
-- of a number in base 16, of a `u64` in base 10, of an amount as its own `FromStr` reads it
-- (`parse_uint`), and of bytes in hex. `len` of a text counts its bytes.
use express402_relayer.Common.{
  ℕ, ◌+◌, ◌%◌, not, Option, none, some, String, List, [], ◌∷◌, ltb, ◌==◌, if◌then◌else◌, string_eq,
  length,
}
use express402_relayer.Common.Text.{codes, starts_with}
use express402_relayer.Types.Error.{
  Message, text, num, printed, api, Answer, answered, refused, Result, ok, err, ◌>>◌,
}
use express402_relayer.Types.Transaction.{Priority}
use express402_relayer.Utils.Validation.{reject_if, validate_calldata}

pub record Parsers : Type 0 where
  pub parse_address : List ℕ → Option ℕ
  pub from_hex : List ℕ → Option ℕ
  pub parse_u64 : List ℕ → Option ℕ
  pub parse_uint : List ℕ → Option ℕ
  pub decode : List ℕ → Answer (List ℕ)

-- The bytes of a code point in UTF-8.
abbrev pub width : ℕ → ℕ
width c = if ltb c 128 then 1 else if ltb c 2048 then 2 else if ltb c 65536 then 3 else 4

unfoldable pub byte_length : List ℕ → ℕ
byte_length [] = 0
byte_length (c ∷ rest) = width c + byte_length rest

abbrev pub zero_x : List ℕ
zero_x = codes "0x"

-- `[2..]`.
abbrev pub after_two : List ℕ → List ℕ
after_two (a ∷ b ∷ rest) = rest
after_two _ = []

unfoldable pub without_prefix : List ℕ → List ℕ
unfolding starts_with
without_prefix s = if starts_with s zero_x then after_two s else s

abbrev pub or_api : {A : Type 0} → Option A → Message → Result A
or_api none m = err (api m)
or_api (some a) m = ok a

-- `or_else` of two parsers.
abbrev pub or_parse : Option ℕ → Option ℕ → Option ℕ
or_parse none second = second
or_parse (some n) second = some n

unfoldable pub validate_priority : String → Result Priority
validate_priority s =
    if string_eq.beq s "low"
    then ok Priority.low
    else if string_eq.beq s "normal"
    then ok Priority.normal
    else if string_eq.beq s "high"
    then ok Priority.high
    else if string_eq.beq s "critical"
    then ok Priority.critical
    else err (
        api (
          text "Invalid priority: "
          ∷ printed s
          ∷ text ". Must be one of: low, normal, high, critical"
          ∷ []))

module _ (P : Parsers) where
  open P use {parse_address, from_hex, parse_u64, decode}

  unfoldable pub validate_address_string : String → Result ℕ
  unfolding byte_length starts_with
  validate_address_string s =
      reject_if (length (codes s) == 0) (text "Address cannot be empty" ∷ [])
      >> (reject_if (not (starts_with (codes s) zero_x)) (text "Address must start with 0x" ∷ [])
          >> (reject_if (not (byte_length (codes s) == 42)) (
                text "Invalid address length: expected 42, got " ∷ num (byte_length (codes s)) ∷ [])
              >> or_api (parse_address (codes s)) (text "Invalid address format" ∷ [])))

  -- What becomes of the decoded bytes.
  abbrev pub check_decoded : Answer (List ℕ) → Result (List ℕ)
  check_decoded (refused m) = err (api (text "Invalid hex string: " ∷ m))
  check_decoded (answered bytes) = validate_calldata bytes >> ok bytes

  unfoldable pub validate_calldata_string : String → Result (List ℕ)
  unfolding byte_length without_prefix
  validate_calldata_string s =
      let hex_str = without_prefix (codes s) in
      reject_if (length hex_str == 0) (text "Calldata cannot be empty" ∷ [])
      >> (reject_if (not (byte_length hex_str % 2 == 0))
            (text "Invalid hex string length (must be even)" ∷ [])
          >> check_decoded (decode hex_str))

  unfoldable pub parse_u256 : String → Result ℕ
  unfolding without_prefix
  parse_u256 s =
      let clean_str = without_prefix (codes s) in
      reject_if (length (codes s) == 0) (text "Value cannot be empty" ∷ [])
      >> (reject_if (length clean_str == 0)
            (text "Value cannot be empty after removing 0x prefix" ∷ [])
          >> or_api (or_parse (from_hex clean_str) (parse_u64 clean_str))
              (text "Invalid number format: " ∷ printed s ∷ []))
