-- ===== src/Utils/Validation.antt =====
-- src/utils/validation.rs: `TransactionValidator`, the checks on the parameters of a request. Amounts are
-- `U256`, and a conversion to a machine integer panics where the amount does not fit. The literal of
-- `MAX_VALUE` does not fit in the `u64` that it is declared with; it is the number that is written.
pub mod Valid
pub mod Texts
pub mod Hex
pub mod Samples
mod Tests
use express402_relayer.Common.{
  ℕ, ◌/◌, ◌*◌, Bool, true, false, ◌&&◌, ◌||◌, not, List, [], ◌∷◌, String, ltb, ◌==◌, if◌then◌else◌,
  length,
}
use express402_relayer.Common.Uint.{Uint}
use express402_relayer.Types.Error.{
  Message, text, num, api, internal, Result, ok, err, panic, or_panic, ◌>>=◌, ◌>>◌,
}
use express402_relayer.Types.Transaction.{Signature}

-- A guard that returns early.
abbrev pub reject_if : Bool → Message → Result (Unit {0})
reject_if true m = err (api m)
reject_if false m = ok tt

unfoldable pub validate_address : ℕ → Result (Unit {0})
validate_address address =
    if address == 0 then err (internal (text "Address cannot be zero" ∷ [])) else ok tt

abbrev pub max_calldata_size : ℕ
max_calldata_size = 1024 * 1024

unfoldable pub validate_calldata : List ℕ → Result (Unit {0})
validate_calldata calldata =
    reject_if (length calldata == 0) (text "Calldata cannot be empty" ∷ [])
    >> reject_if (ltb max_calldata_size (length calldata))
        (text "Calldata size exceeds maximum: " ∷ num max_calldata_size ∷ text " bytes" ∷ [])

abbrev pub min_gas_limit : ℕ
min_gas_limit = 21000

abbrev pub max_gas_limit : ℕ
max_gas_limit = 30_000_000

abbrev pub min_gas_price : ℕ
min_gas_price = 1_000_000_000

abbrev pub max_gas_price : ℕ
max_gas_price = 1_000_000_000_000

abbrev pub max_value : ℕ
max_value = 10_000_000_000_000_000_000_000

-- `u64::MAX / 2`.
abbrev pub max_nonce : ℕ
max_nonce = 18_446_744_073_709_551_615 / 2

unfoldable pub validate_signature : Signature → Result (Unit {0})
validate_signature signature =
    reject_if (signature.r == 0 || signature.s == 0)
      (text "Signature r and s must be non-zero" ∷ [])
    >> reject_if (not (signature.v == 27) && (not (signature.v == 28) && ltb signature.v 35))
        (text "Invalid signature v value: " ∷ num signature.v ∷ [])

-- The parameters of `validate_transaction_params`.
pub record Params : Type 0 where
  pub user_address : ℕ
  pub target_contract : ℕ
  pub calldata : List ℕ
  pub value : ℕ
  pub gas_limit : ℕ
  pub max_fee_per_gas : ℕ
  pub max_priority_fee_per_gas : ℕ
  pub nonce : ℕ
  pub signature : Signature

module _ (U : Uint) where
  unfoldable pub validate_gas_limit : ℕ → Result (Unit {0})
  validate_gas_limit gas_limit =
      reject_if (gas_limit == 0) (text "Gas limit cannot be zero" ∷ [])
      >> (or_panic (U.to_u64 gas_limit) >>= λ n.
          reject_if (ltb n min_gas_limit)
            (text "Gas limit too low: minimum is " ∷ num min_gas_limit ∷ [])
          >> reject_if (ltb max_gas_limit n)
              (text "Gas limit too high: maximum is " ∷ num max_gas_limit ∷ []))

  unfoldable pub validate_gas_prices : ℕ → ℕ → Result (Unit {0})
  validate_gas_prices max_fee_per_gas max_priority_fee_per_gas =
      reject_if (max_fee_per_gas == 0) (text "max_fee_per_gas cannot be zero" ∷ [])
      >> (reject_if (max_priority_fee_per_gas == 0)
            (text "max_priority_fee_per_gas cannot be zero" ∷ [])
          >> (reject_if (ltb max_fee_per_gas max_priority_fee_per_gas)
                (text "max_fee_per_gas must be >= max_priority_fee_per_gas" ∷ [])
              >> (or_panic (U.to_u64 max_fee_per_gas) >>= λ n.
                  reject_if (ltb n min_gas_price) (
                    text "Gas price too low: minimum is "
                    ∷ num (min_gas_price / 1_000_000_000)
                    ∷ text " gwei"
                    ∷ [])
                  >> reject_if (ltb max_gas_price n) (
                      text "Gas price too high: maximum is "
                      ∷ num (max_gas_price / 1_000_000_000)
                      ∷ text " gwei"
                      ∷ []))))

  unfoldable pub validate_value : ℕ → Result (Unit {0})
  validate_value value = do
    n ← or_panic (U.to_u128 value)
    reject_if (ltb max_value n) (
        text "Value too large: maximum is "
        ∷ num (max_value / 1_000_000_000_000_000_000)
        ∷ text " ETH"
        ∷ [])

  unfoldable pub validate_nonce : ℕ → Result (Unit {0})
  validate_nonce nonce = do
    n ← or_panic (U.to_u64 nonce)
    reject_if (ltb max_nonce n) (text "Nonce value too large" ∷ [])

  unfoldable pub validate_transaction_params : Params → Result (Unit {0})
  unfolding validate_address validate_calldata validate_value validate_gas_limit validate_gas_prices
      validate_nonce validate_signature
  validate_transaction_params p =
      validate_address p.user_address
      >> (validate_address p.target_contract
          >> (validate_calldata p.calldata
              >> (validate_value p.value
                  >> (validate_gas_limit p.gas_limit
                      >> (validate_gas_prices p.max_fee_per_gas p.max_priority_fee_per_gas
                          >> (validate_nonce p.nonce >> validate_signature p.signature))))))
