-- ===== src/Utils/Validation/Tests.antt =====
-- The theorems about validation at concrete parameters (src/utils/validation.rs).
use express402_relayer.Common.{ℕ, ◌≡◌, ◌<◌, refl, ◌↔◌, [], ◌∷◌, arith}
use express402_relayer.Common.Samples.{uint}
use express402_relayer.Common.Text.{codes}
use express402_relayer.Types.Error.{ok, panic}
use express402_relayer.Utils.Validation.{Params, validate_transaction_params}
use express402_relayer.Utils.Validation.Valid.{
  IsValid, validate_transaction_params-IsValid, validate_transaction_params-panics,
}
use express402_relayer.Utils.Validation.Texts.{parse_u256}
use express402_relayer.Utils.Validation.Hex.{value, parse_u256-hex}
use express402_relayer.Utils.Validation.Samples.{parsers}

abbrev params : ℕ → Params
params gas_limit = record {
  user_address = 77;
  target_contract = 88;
  calldata = 1 ∷ 2 ∷ [];
  value = 5;
  gas_limit = gas_limit;
  max_fee_per_gas = 30_000_000_000;
  max_priority_fee_per_gas = 2_000_000_000;
  nonce = 1;
  signature = record { r = 1; s = 1; v = 27 };
}

validate_transaction_params-IsValid_example :
    (validate_transaction_params uint (params 21000) ≡ ok tt) ↔ IsValid uint (params 21000)
validate_transaction_params-IsValid_example =
    validate_transaction_params-IsValid uint (params 21000)

validate_transaction_params-panics_example :
    validate_transaction_params uint (params 18_446_744_073_709_551_616) ≡ panic
validate_transaction_params-panics_example =
    validate_transaction_params-panics uint (params 18_446_744_073_709_551_616) (omega arith)
      (omega arith) (omega arith) (omega arith) (omega arith) (omega arith)

parse_u256-hex_example :
    (parse_u256 parsers "21000" ≡ ok (value 16 (codes "21000")))
    × (value 10 (codes "21000") < value 16 (codes "21000"))
parse_u256-hex_example =
    parse_u256-hex parsers "21000" 50 49 (48 ∷ 48 ∷ 48 ∷ []) (λ ds digits small. refl) refl
      (
        (omega arith, omega arith),
        (
          (omega arith, omega arith),
          (
            (omega arith, omega arith),
            ((omega arith, omega arith), ((omega arith, omega arith), tt)),
          ),
        ),
      )
      (omega arith) (omega arith)
