-- ===== src/Utils/Gas.antt =====
-- src/utils/gas.rs: `GasPriceOracle`. `U256` sums wrap; the answers of the provider, the clock and the
-- conversions of the number library are arguments. The debug output converts the prices to 64 bits
-- where it is switched on, and that can panic after the price has been stored.
mod Bounds
mod Tests
use Prim.Native.Nat.{min, max}
use express402_relayer.Common.{
  ℕ, suc, ◌+◌, ◌/◌, ◌%◌, ◌^◌, Bool, true, false, Option, none, some, List, [], ◌∷◌, ◌++◌, String,
  ltb, ◌==◌, if◌then◌else◌, length, string_eq,
}
use express402_relayer.Common.Float.{F64}
use express402_relayer.Common.Uint.{Uint}
use express402_relayer.Types.Error.{
  Message, text, ethereum, Answer, or_ethereum, Result, ok, err, panic, or_panic, ◌>>=◌,
}

pub record GasPriceInfo : Type 0 where
  pub max_fee_per_gas : ℕ
  pub max_priority_fee_per_gas : ℕ
  pub base_fee : ℕ
  pub timestamp : ℕ
  pub block_number : ℕ

pub record GasPriceSnapshot : Type 0 where
  pub max_fee_per_gas : ℕ
  pub max_priority_fee_per_gas : ℕ
  pub timestamp : ℕ
  pub block_number : ℕ

-- The fields of a block header that the code reads.
pub record Header : Type 0 where
  pub number : Option ℕ
  pub base_fee : Option ℕ

-- `remove(0)` of a vector that is not empty.
abbrev pub remove_first {ℓ} : {A : Type ℓ} → List A → List A
remove_first [] = []
remove_first (x ∷ xs) = xs

abbrev pub default_base_fee : ℕ
default_base_fee = 20_000_000_000

abbrev pub priority_fee : ℕ
priority_fee = 2_000_000_000

abbrev pub or_missing {ℓ} : {A : Type ℓ} → Option A → String → Result A
or_missing none what = err (ethereum (text what ∷ []))
or_missing (some a) what = ok a

abbrev pub base_fee_or_default : Option ℕ → ℕ
base_fee_or_default none = default_base_fee
base_fee_or_default (some fee) = fee

module _ (F : F64) (U : Uint) where
  open F use {Carrier, of_u64, to_u64 as f64_to_u64, decimal, mul}

  pub record GasPriceOracle : Type 0 where
    pub current_gas_price : GasPriceInfo
    pub gas_price_history : List GasPriceSnapshot
    pub update_interval : ℕ
    pub multiplier : Carrier
    pub min_gas_price : ℕ
    pub max_gas_price : ℕ
    pub max_history_size : ℕ

  unfoldable pub new : Carrier → ℕ → ℕ → ℕ → ℕ → GasPriceOracle
  new multiplier min_gas_price max_gas_price update_interval now = record {
    current_gas_price = record {
      max_fee_per_gas = 20_000_000_000;
      max_priority_fee_per_gas = 2_000_000_000;
      base_fee = 20_000_000_000;
      timestamp = now;
      block_number = 0;
    };
    gas_price_history = [];
    update_interval = update_interval;
    multiplier = multiplier;
    min_gas_price = min_gas_price;
    max_gas_price = max_gas_price;
    max_history_size = 1000;
  }

  -- `(fee.to::<u64>() as f64 * multiplier) as u64`.
  unfoldable pub scale : ℕ → Carrier → Result ℕ
  scale fee multiplier = do n ← or_panic (U.to_u64 fee); ok (f64_to_u64 (mul (of_u64 n) multiplier))

  -- The prices that `fetch_gas_price` computes from the latest block.
  unfoldable pub price_of : GasPriceOracle → ℕ → Option ℕ → ℕ → Result GasPriceInfo
  unfolding scale
  price_of o block_number header_fee now = do
    let base_fee = base_fee_or_default header_fee
    adjusted ← scale ((base_fee + priority_fee) % 2 ^ 256) o.multiplier
    ok (record {
      max_fee_per_gas = min (max adjusted o.min_gas_price) o.max_gas_price;
      max_priority_fee_per_gas = max priority_fee o.min_gas_price;
      base_fee = base_fee;
      timestamp = now;
      block_number = block_number;
    })

  -- The two writes of `fetch_gas_price`: the current price, and a history of bounded length.
  unfoldable pub store : GasPriceOracle → GasPriceInfo → ℕ → GasPriceOracle
  store o info at = record o {
    current_gas_price = info;
    gas_price_history =
        if ltb o.max_history_size (length longer) then remove_first longer else longer;
  }
    where
      longer : List GasPriceSnapshot
      longer =
          o.gas_price_history
          ++ (record {
            max_fee_per_gas = info.max_fee_per_gas;
            max_priority_fee_per_gas = info.max_priority_fee_per_gas;
            timestamp = at;
            block_number = info.block_number;
          })
            ∷ []

  -- `fetch_gas_price` up to the price.
  unfoldable pub fetch_price :
      GasPriceOracle → Answer (Option Header) → Answer ℕ → ℕ → Result GasPriceInfo
  unfolding price_of
  fetch_price o latest gas_price now = do
    block ← or_ethereum "Failed to get latest block: " latest
    header ← or_missing block "Latest block not found"
    number ← or_missing header.number "Block number missing"
    block_number ← or_panic (U.to_u64 number)
    price ← or_ethereum "Failed to get gas price: " gas_price
    price_of o block_number header.base_fee now

  -- The debug output, if it is switched on, and the return of the price.
  unfoldable pub log_price : Bool → GasPriceInfo → Result GasPriceInfo
  log_price false info = ok info
  log_price true info = do
    max_fee ← or_panic (U.to_u64 info.max_fee_per_gas)
    tip ← or_panic (U.to_u64 info.max_priority_fee_per_gas)
    base_fee ← or_panic (U.to_u64 info.base_fee)
    ok info

  unfoldable pub keep_price :
      GasPriceOracle → Bool → ℕ → Result GasPriceInfo → GasPriceOracle × Result GasPriceInfo
  unfolding store log_price
  keep_price o debug at (ok info) = (store o info at, log_price debug info)
  keep_price o debug at (err e) = (o, err e)
  keep_price o debug at panic = (o, panic)

  -- `debug` says whether the debug output is switched on.
  unfoldable pub fetch_gas_price :
      GasPriceOracle
      → Answer (Option Header)
      → Answer ℕ
      → Bool
      → ℕ
      → ℕ
      → GasPriceOracle × Result GasPriceInfo
  unfolding fetch_price keep_price
  fetch_gas_price o latest gas_price debug now at =
      keep_price o debug at (fetch_price o latest gas_price now)

  -- The multipliers of a priority, for the maximal fee and for the priority fee.
  unfoldable pub multipliers : String → Carrier × Carrier
  multipliers priority =
      if string_eq.beq priority "critical"
      then (decimal 15 1, decimal 13 1)
      else if string_eq.beq priority "high"
      then (decimal 12 1, decimal 12 1)
      else if string_eq.beq priority "normal"
      then (decimal 10 1, decimal 10 1)
      else if string_eq.beq priority "low"
      then (decimal 8 1, decimal 8 1)
      else (decimal 10 1, decimal 10 1)

  unfoldable pub get_recommended_gas_price : GasPriceOracle → String → ℕ → Result GasPriceInfo
  unfolding scale multipliers
  get_recommended_gas_price o priority now = do
    let current = o.current_gas_price
    fee ← scale current.max_fee_per_gas (multipliers priority).0
    tip ← scale current.max_priority_fee_per_gas (multipliers priority).1
    ok (record {
      max_fee_per_gas = min (max fee o.min_gas_price) o.max_gas_price;
      max_priority_fee_per_gas = max tip o.min_gas_price;
      base_fee = current.base_fee;
      timestamp = now;
      block_number = current.block_number;
    })
