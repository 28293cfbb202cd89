-- ===== src/Utils/Gas/Tests.antt =====
-- The theorems about the oracle at concrete prices (src/utils/gas.rs).
use express402_relayer.Common.{ℕ, ◌≤◌, ◌≡◌, refl, true, false, some, [], ◌∷◌, string_eq, arith}
use express402_relayer.Common.Samples.{fixed, uint}
use express402_relayer.Types.Error.{ok, answered}
use express402_relayer.Utils.Gas.{
  GasPriceInfo, GasPriceOracle, Header, priority_fee, fetch_gas_price, get_recommended_gas_price,
}
use express402_relayer.Utils.Gas.Bounds.{IsBounded, fetch_gas_price-IsBounded}

abbrev price : ℕ → GasPriceInfo
price fee = record {
  max_fee_per_gas = fee;
  max_priority_fee_per_gas = 2_000_000_000;
  base_fee = 30_000_000_000;
  timestamp = 50;
  block_number = 7;
}

-- A multiplier of 1.2, prices from 1 gwei up to the given limit, and a history that is full.
abbrev oracle : ℕ → GasPriceOracle fixed uint
oracle limit = record {
  current_gas_price = price 20_000_000_000;
  gas_price_history =
      (record {
        max_fee_per_gas = 20_000_000_000;
        max_priority_fee_per_gas = 2_000_000_000;
        timestamp = 40;
        block_number = 6;
      })
      ∷ [];
  update_interval = 10;
  multiplier = 1200;
  min_gas_price = 1_000_000_000;
  max_gas_price = limit;
  max_history_size = 1;
}

abbrev header : Header
header = record { number = some 7; base_fee = some 30_000_000_000 }

-- The oracle after the fetch.
abbrev after : ℕ → ℕ → GasPriceOracle fixed uint
after limit fee = record (oracle limit) {
  current_gas_price = price fee;
  gas_price_history =
      (record {
        max_fee_per_gas = fee;
        max_priority_fee_per_gas = 2_000_000_000;
        timestamp = 51;
        block_number = 7;
      })
      ∷ [];
}

fetched :
    fetch_gas_price fixed uint
      (oracle 100_000_000_000)
      (answered (some header))
      (answered 1)
      true
      50
      51
    ≡ (after 100_000_000_000 38_400_000_000, ok (price 38_400_000_000))
unfolding fetch_gas_price
fetched = refl

fetched_narrow :
    fetch_gas_price fixed uint
      (oracle 1_000_000_000)
      (answered (some header))
      (answered 1)
      false
      50
      51
    ≡ (after 1_000_000_000 1_000_000_000, ok (price 1_000_000_000))
unfolding fetch_gas_price
fetched_narrow = refl

abbrev for_high : GasPriceInfo
for_high = record {
  max_fee_per_gas = 24_000_000_000;
  max_priority_fee_per_gas = 2_400_000_000;
  base_fee = 30_000_000_000;
  timestamp = 60;
  block_number = 7;
}

recommended_high :
    get_recommended_gas_price fixed uint (oracle 100_000_000_000) "high" 60 ≡ ok for_high
unfolding get_recommended_gas_price
recommended_high = refl

fetch_gas_price-IsBounded_example :
    IsBounded fixed uint (oracle 100_000_000_000) (price 38_400_000_000)
    × (priority_fee ≤ 2_000_000_000)
    × (price 38_400_000_000 ≡ price 38_400_000_000)
    × (1 ≤ 1)
fetch_gas_price-IsBounded_example =
    fetch_gas_price-IsBounded fixed uint (oracle 100_000_000_000)
      (after 100_000_000_000 38_400_000_000) (answered (some header)) (answered 1) true 50 51
      (price 38_400_000_000) (omega arith) (omega arith) fetched
