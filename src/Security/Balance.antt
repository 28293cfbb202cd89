-- ===== src/Security/Balance.antt =====
-- src/security/balance.rs: `BalanceChecker`, which remembers balances for a while, and
-- `BalanceMonitor`. What the chain answers and the readings of the clock during one check are a
-- `Reading`. The ages are signed durations, and a test `now - t < d` is written `now < t + d`. A check
-- is one atomic step.
mod Fresh
mod Tests
use express402_relayer.Common.{
  ℕ, ◌+◌, Bool, true, false, not, Option, none, some, List, [], ◌∷◌, ◌++◌, ltb, leb, ◌==◌,
  if◌then◌else◌, any, retain, Map, lookup, insert, nat_eq,
}
use express402_relayer.Types.Error.{
  Message, ethereum, Answer, answered, refused, Result, ok, err, panic, ◌>>=◌,
}

pub record BalanceInfo : Type 0 where
  pub address : ℕ
  pub balance : ℕ
  pub last_updated : ℕ
  pub is_sufficient : Bool

-- `cache_ttl` is what `from_std` makes of the duration, or 0 where it fails.
pub record BalanceChecker : Type 0 where
  pub balance_cache : Map ℕ BalanceInfo
  pub min_balance_threshold : ℕ
  pub cache_ttl : ℕ

pub record Reading : Type 0 where
  pub now : ℕ
  pub balance : Answer ℕ
  pub updated : ℕ

unfoldable pub new : ℕ → ℕ → BalanceChecker
new min_balance_threshold cache_ttl = record {
  balance_cache = [];
  min_balance_threshold = min_balance_threshold;
  cache_ttl = cache_ttl;
}

-- `fetch_balance`, whose error keeps the text of the provider's.
abbrev pub fetch_balance : Answer ℕ → Result ℕ
fetch_balance (answered balance) = ok balance
fetch_balance (refused m) = err (ethereum m)

-- The part of `check_balance` after the cache: the answer of the chain is stored.
unfoldable pub refresh : BalanceChecker → ℕ → Reading → BalanceChecker × Result BalanceInfo
refresh c address r = elim (fetch_balance r.balance) [
  | ok balance ↦ (
    record c { balance_cache = insert address (fresh balance) c.balance_cache },
    ok (fresh balance),
  )
  | err e ↦ (c, err e)
  | panic ↦ (c, panic)
]
  where
    fresh : ℕ → BalanceInfo
    fresh balance = record {
      address = address;
      balance = balance;
      last_updated = r.updated;
      is_sufficient = leb c.min_balance_threshold balance;
    }

unfoldable pub check_balance : BalanceChecker → ℕ → Reading → BalanceChecker × Result BalanceInfo
unfolding refresh
check_balance c address r = elim (lookup address c.balance_cache) [
  | none ↦ refresh c address r
  | some cached_info ↦
      if ltb r.now (cached_info.last_updated + c.cache_ttl)
      then (c, ok cached_info)
      else refresh c address r
]

abbrev pub prepend :
    BalanceInfo
    → BalanceChecker × Result (List BalanceInfo)
    → BalanceChecker × Result (List BalanceInfo)
prepend info (c, ok infos) = (c, ok (info ∷ infos))
prepend info (c, err e) = (c, err e)
prepend info (c, panic) = (c, panic)

abbrev pub go_on :
    BalanceChecker × Result BalanceInfo
    → (BalanceChecker → BalanceChecker × Result (List BalanceInfo))
    → BalanceChecker × Result (List BalanceInfo)
go_on (c, ok info) rest = prepend info (rest c)
go_on (c, err e) rest = (c, err e)
go_on (c, panic) rest = (c, panic)

-- The addresses with what is read during the check of each; the first error ends the loop.
unfoldable pub check_multiple_balances :
    BalanceChecker → List (ℕ × Reading) → BalanceChecker × Result (List BalanceInfo)
unfolding check_balance
check_multiple_balances c [] = (c, ok [])
check_multiple_balances c ((address, r) ∷ later) =
    go_on (check_balance c address r) (λ d. check_multiple_balances d later)

unfoldable pub is_balance_sufficient : BalanceChecker → ℕ → Reading → BalanceChecker × Result Bool
unfolding check_balance
is_balance_sufficient c address r =
    let (d, info) = check_balance c address r in (d, info >>= λ i. ok i.is_sufficient)

unfoldable pub get_balance : BalanceChecker → ℕ → Reading → BalanceChecker × Result ℕ
unfolding check_balance
get_balance c address r =
    let (d, info) = check_balance c address r in (d, info >>= λ i. ok i.balance)

unfoldable pub clear_cache : BalanceChecker → BalanceChecker
clear_cache c = record c { balance_cache = [] }

unfoldable pub set_min_balance_threshold : BalanceChecker → ℕ → BalanceChecker
set_min_balance_threshold c threshold = record c { min_balance_threshold = threshold }

unfoldable pub set_cache_ttl : BalanceChecker → ℕ → BalanceChecker
set_cache_ttl c ttl = record c { cache_ttl = ttl }

pub record BalanceMonitor : Type 0 where
  pub checker : BalanceChecker
  pub monitoring_addresses : List ℕ
  pub alert_threshold : ℕ

unfoldable pub new_monitor : BalanceChecker → ℕ → BalanceMonitor
new_monitor checker alert_threshold = record {
  checker = checker;
  monitoring_addresses = [];
  alert_threshold = alert_threshold;
}

unfoldable pub add_address : BalanceMonitor → ℕ → BalanceMonitor
add_address m address = record m {
  monitoring_addresses =
      if any (λ a. a == address) m.monitoring_addresses
      then m.monitoring_addresses
      else m.monitoring_addresses ++ address ∷ [];
}

unfoldable pub remove_address : BalanceMonitor → ℕ → BalanceMonitor
remove_address m address = record m {
  monitoring_addresses = retain (λ a. not (a == address)) m.monitoring_addresses;
}

-- The monitored addresses with what is read during the check of each.
unfoldable pub with_readings : (ℕ → Reading) → List ℕ → List (ℕ × Reading)
with_readings f [] = []
with_readings f (a ∷ rest) = (a, f a) ∷ with_readings f rest

unfoldable pub check_all_balances :
    BalanceMonitor → (ℕ → Reading) → BalanceMonitor × Result (List BalanceInfo)
unfolding check_multiple_balances with_readings
check_all_balances m f =
    let (c, infos) = check_multiple_balances m.checker (with_readings f m.monitoring_addresses) in
    (record m { checker = c }, infos)

-- The addresses of the infos with a balance below the threshold.
unfoldable pub low_addresses : ℕ → List BalanceInfo → List ℕ
low_addresses threshold [] = []
low_addresses threshold (info ∷ infos) =
    let rest = low_addresses threshold infos in
    if ltb info.balance threshold then info.address ∷ rest else rest

unfoldable pub get_low_balance_addresses :
    BalanceMonitor → (ℕ → Reading) → BalanceMonitor × Result (List ℕ)
unfolding check_all_balances low_addresses
get_low_balance_addresses m f =
    let (d, infos) = check_all_balances m f in
    (d, infos >>= λ l. ok (low_addresses m.alert_threshold l))
