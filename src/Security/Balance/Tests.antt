-- ===== src/Security/Balance/Tests.antt =====
-- The theorems about balances at concrete readings (src/security/balance.rs).
use express402_relayer.Common.{
  ℕ, ◌+◌, ◌<◌, ◌≡◌, ◌⊎◌, refl, true, List, [], ◌∷◌, lookup, insert, nat_eq,
}
use express402_relayer.Types.Error.{answered, ok}
use express402_relayer.Security.Balance.{
  BalanceInfo, BalanceChecker, Reading, new, check_balance, set_min_balance_threshold,
}
use express402_relayer.Security.Balance.Fresh.{
  Call, Given, checks, sets_threshold, run, check_balance-fresh,
}

abbrev reading : ℕ → ℕ → Reading
reading now balance = record { now = now; balance = answered balance; updated = now }

abbrev info : BalanceInfo
info = record { address = 7; balance = 50; last_updated = 100; is_sufficient = true }

abbrev checker : ℕ → BalanceChecker
checker threshold = record {
  balance_cache = (7, info) ∷ [];
  min_balance_threshold = threshold;
  cache_ttl = 30;
}

abbrev empty : BalanceChecker
empty = record { balance_cache = []; min_balance_threshold = 40; cache_ttl = 30 }

fetched_first : check_balance empty 7 (reading 100 50) ≡ (checker 40, ok info)
unfolding check_balance lookup insert
fetched_first = refl

remembered :
    check_balance
      (run (new 40 30) (checks 7 (reading 100 50) ∷ sets_threshold 60 ∷ []))
      7
      (reading 110 20)
    ≡ (checker 60, ok info)
unfolding check_balance run new set_min_balance_threshold lookup insert
remembered = refl

abbrev calls : List Call
calls = checks 7 (reading 100 50) ∷ sets_threshold 60 ∷ []

check_balance-fresh_example :
    (info.address ≡ 7)
    × (((reading 110 20).balance ≡ answered 50)
        ⊎ (Given 7 info calls × (110 < 100 + (run (new 40 30) calls).cache_ttl)))
check_balance-fresh_example =
    check_balance-fresh 40 30 calls 7 (reading 110 20) (checker 60) info remembered
