-- ===== src/Utils/Validation/Valid.antt =====
-- Which parameters pass (src/utils/validation.rs).
use express402_relayer.Common.{ℕ, ◌^◌, ◌≤◌, ◌<◌, ◌≡◌, ◌↔◌, ◌⊎◌, refl, List, length, arith}
use express402_relayer.Common.Uint.{Uint}
use express402_relayer.Types.Error.{Result, ok, err, panic, ◌>>◌}
use express402_relayer.Types.Transaction.{Signature}
use express402_relayer.Utils.Validation.{
  Params, max_calldata_size, min_gas_limit, max_gas_limit, min_gas_price, max_gas_price, max_value,
  max_nonce, validate_address, validate_calldata, validate_gas_limit, validate_gas_prices,
  validate_value, validate_nonce, validate_signature, validate_transaction_params,
}

-- The call passes.
abbrev Passes : Result (Unit {0}) → Type 0
Passes r = r ≡ ok tt

>>-Passes : (r s : Result (Unit {0})) → Passes (r >> s) ↔ (Passes r × Passes s)
>>-Passes (ok u) s = (λ e. (refl, e), λ p. p.1)
>>-Passes (err e) s = (λ q. cc, λ p. cc)
>>-Passes panic s = (λ q. cc, λ p. cc)

validate_address-Passes : (a : ℕ) → Passes (validate_address a) ↔ (0 < a)
unfolding validate_address
validate_address-Passes a = ground arith

validate_calldata-Passes :
    (d : List ℕ) → Passes (validate_calldata d) ↔ ((0 < length d) × (length d ≤ max_calldata_size))
unfolding validate_calldata
validate_calldata-Passes d = ground arith

-- A signature with both halves and a recovery value of 27, 28 or at least 35.
abbrev pub IsSigned : Signature → Type 0
IsSigned s = (0 < s.r) × (0 < s.s) × ((s.v ≡ 27) ⊎ (s.v ≡ 28) ⊎ (35 ≤ s.v))

validate_signature-Passes : (s : Signature) → Passes (validate_signature s) ↔ IsSigned s
unfolding validate_signature
validate_signature-Passes s = ground arith

module _ (U : Uint) where
  validate_gas_limit-Passes :
      (g : ℕ) → Passes (validate_gas_limit U g) ↔ ((min_gas_limit ≤ g) × (g ≤ max_gas_limit))
  unfolding validate_gas_limit
  validate_gas_limit-Passes g = ground (arith, U.u64_fits g, U.u64_panics g)

  validate_gas_limit-panics : (g : ℕ) → 2 ^ 64 ≤ g → validate_gas_limit U g ≡ panic
  unfolding validate_gas_limit
  validate_gas_limit-panics g h = ground (arith, U.u64_panics g)

  validate_gas_prices-Passes :
      (fee tip : ℕ)
      → Passes (validate_gas_prices U fee tip)
        ↔ ((0 < tip) × (tip ≤ fee) × (min_gas_price ≤ fee) × (fee ≤ max_gas_price))
  unfolding validate_gas_prices
  validate_gas_prices-Passes fee tip = ground (arith, U.u64_fits fee, U.u64_panics fee)

  validate_value-Passes : (v : ℕ) → Passes (validate_value U v) ↔ (v ≤ max_value)
  unfolding validate_value
  validate_value-Passes v = ground (arith, U.u128_fits v, U.u128_panics v)

  validate_nonce-Passes : (n : ℕ) → Passes (validate_nonce U n) ↔ (n ≤ max_nonce)
  unfolding validate_nonce
  validate_nonce-Passes n = ground (arith, U.u64_fits n, U.u64_panics n)

  -- The conditions on the parameters of a request.
  pub record IsValid (p : Params) : Type 0 where
    pub from_someone : 0 < p.user_address
    pub to_someone : 0 < p.target_contract
    pub some_data : 0 < length p.calldata
    pub small_data : length p.calldata ≤ max_calldata_size
    pub small_value : p.value ≤ max_value
    pub enough_gas : min_gas_limit ≤ p.gas_limit
    pub little_gas : p.gas_limit ≤ max_gas_limit
    pub some_tip : 0 < p.max_priority_fee_per_gas
    pub tip_below_fee : p.max_priority_fee_per_gas ≤ p.max_fee_per_gas
    pub enough_fee : min_gas_price ≤ p.max_fee_per_gas
    pub small_fee : p.max_fee_per_gas ≤ max_gas_price
    pub small_nonce : p.nonce ≤ max_nonce
    pub signed : IsSigned p.signature

  accepted-IsValid : (p : Params) → Passes (validate_transaction_params U p) → IsValid p
  unfolding validate_transaction_params
  accepted-IsValid p e =
      let (user, e₁) = (>>-Passes (validate_address p.user_address) _).0 e in
      let (target, e₂) = (>>-Passes (validate_address p.target_contract) _).0 e₁ in
      let (data_ok, e₃) = (>>-Passes (validate_calldata p.calldata) _).0 e₂ in
      let (value, e₄) = (>>-Passes (validate_value U p.value) _).0 e₃ in
      let (gas, e₅) = (>>-Passes (validate_gas_limit U p.gas_limit) _).0 e₄ in
      let (prices, e₆) =
        (>>-Passes (validate_gas_prices U p.max_fee_per_gas p.max_priority_fee_per_gas) _).0 e₅ in
      let (nonce, signature) = (>>-Passes (validate_nonce U p.nonce) _).0 e₆ in
      let fees =
        (validate_gas_prices-Passes p.max_fee_per_gas p.max_priority_fee_per_gas).0 prices in
      record {
        from_someone = (validate_address-Passes p.user_address).0 user;
        to_someone = (validate_address-Passes p.target_contract).0 target;
        some_data = ((validate_calldata-Passes p.calldata).0 data_ok).0;
        small_data = ((validate_calldata-Passes p.calldata).0 data_ok).1;
        small_value = (validate_value-Passes p.value).0 value;
        enough_gas = ((validate_gas_limit-Passes p.gas_limit).0 gas).0;
        little_gas = ((validate_gas_limit-Passes p.gas_limit).0 gas).1;
        some_tip = fees.0;
        tip_below_fee = fees.1;
        enough_fee = fees.2;
        small_fee = fees.3;
        small_nonce = (validate_nonce-Passes p.nonce).0 nonce;
        signed = (validate_signature-Passes p.signature).0 signature;
      }

  IsValid-accepted : (p : Params) → IsValid p → Passes (validate_transaction_params U p)
  unfolding validate_transaction_params
  IsValid-accepted p v =
      rw
        (
          (validate_address-Passes p.user_address).1 v.from_someone,
          (validate_address-Passes p.target_contract).1 v.to_someone,
          (validate_calldata-Passes p.calldata).1 (v.some_data, v.small_data),
          (validate_value-Passes p.value).1 v.small_value,
          (validate_gas_limit-Passes p.gas_limit).1 (v.enough_gas, v.little_gas),
          (validate_gas_prices-Passes p.max_fee_per_gas p.max_priority_fee_per_gas).1
              (v.some_tip, v.tip_below_fee, v.enough_fee, v.small_fee),
          (validate_nonce-Passes p.nonce).1 v.small_nonce,
        )
        ((validate_signature-Passes p.signature).1 v.signed)

  -- The validator accepts exactly the valid parameters: two addresses that are not zero, call data of 1
  -- byte to 1 MiB, a value of at most 10,000 ETH, a gas limit from 21,000 to 30 million, a fee from 1 to
  -- 1,000 gwei that is at least the tip, a tip, a nonce in the lower half of 64 bits and a signature
  -- with both halves and a known recovery value.
  pub validate_transaction_params-IsValid :
      (p : Params) → (validate_transaction_params U p ≡ ok tt) ↔ IsValid p
  validate_transaction_params-IsValid p = (accepted-IsValid p, IsValid-accepted p)

  -- A gas limit that does not fit in 64 bits makes the validator panic, where it should refuse the
  -- request, if the checks before it pass.
  pub validate_transaction_params-panics :
      (p : Params)
      → 0 < p.user_address
      → 0 < p.target_contract
      → 0 < length p.calldata
      → length p.calldata ≤ max_calldata_size
      → p.value ≤ max_value
      → 2 ^ 64 ≤ p.gas_limit
      → validate_transaction_params U p ≡ panic
  unfolding validate_transaction_params
  validate_transaction_params-panics p user target some_data small_data value huge =
      rw
        (
          (validate_address-Passes p.user_address).1 user,
          (validate_address-Passes p.target_contract).1 target,
          (validate_calldata-Passes p.calldata).1 (some_data, small_data),
          (validate_value-Passes p.value).1 value,
          validate_gas_limit-panics p.gas_limit huge,
        )
        refl
