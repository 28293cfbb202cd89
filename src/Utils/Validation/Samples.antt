-- ===== src/Utils/Validation/Samples.antt =====
-- Parsers for tests (src/utils/validation.rs): an address is its length, a text is its own bytes, and the
-- amounts are read in base 16, or in base 10.
use express402_relayer.Common.{some, length}
use express402_relayer.Types.Error.{answered}
use express402_relayer.Utils.Validation.Texts.{Parsers}
use express402_relayer.Utils.Validation.Hex.{value}

abbrev pub parsers : Parsers
parsers = record {
  parse_address = λ s. some (length s);
  from_hex = λ s. some (value 16 s);
  parse_u64 = λ s. some (value 10 s);
  parse_uint = λ s. some (value 10 s);
  decode = λ s. answered s;
}
