-- ===== src/Api/Middleware/Sums.antt =====
-- The sums over the counters (src/api/middleware.rs, `record_request` and `record_error`).
use express402_relayer.Common.{
  ℕ, ◌+◌, ◌*◌, ◌/◌, ◌%◌, ◌^◌, ◌≤◌, ◌<◌, ◌≡◌, refl, ap, ◌∙◌, inl, inr, Bool, true, false, Option,
  none, some, String, List, [], ◌∷◌, if◌then◌else◌, Map, lookup, insert, string_eq, arith,
  Bool-cases,
}
use express402_relayer.Types.Error.{ok}
use express402_relayer.Api.Middleware.{
  RequestCounter, ErrorCounter, MiddlewareManager, request_counter_or_new, error_counter_or_new,
  count_request, total_time, average, store, store_or_panic, record_request, count_error,
  record_error, sum_from, values,
}

module _ {C : Type 0} (f : C → ℕ) where
  abbrev pub sum : List C → ℕ
  sum [] = 0
  sum (c ∷ rest) = f c + sum rest

  pub sum_from-sum :
      (acc : ℕ) (cs : List C) → acc + sum cs < 2 ^ 64 → sum_from f acc cs ≡ acc + sum cs
  unfolding sum_from
  sum_from-sum acc [] small = omega arith
  sum_from-sum acc (c ∷ rest) small =
      let fits : (acc + f c) % 2 ^ 64 ≡ acc + f c = omega arith in
      ap (λ a. sum_from f a rest) fits ∙ sum_from-sum (acc + f c) rest (omega arith) ∙ omega arith

  abbrev pub old : Option C → ℕ
  old none = 0
  old (some c) = f c

  sum-insert :
      (k : String) (c : C) (m : Map String C)
      → sum (values (insert k c m)) + old (lookup k m) ≡ sum (values m) + f c
  unfolding insert lookup
  sum-insert k c [] = omega arith
  sum-insert k c ((j, d) ∷ m) = elim (Bool-cases (string_eq.beq j k)) [
    | inl same ↦ rw same (omega arith)
    | inr other ↦ rw other (omega (arith, sum-insert k c m))
  ]

abbrev pub total : RequestCounter → ℕ
total c = c.total_requests

abbrev pub successes : RequestCounter → ℕ
successes c = c.successful_requests

abbrev pub failures : RequestCounter → ℕ
failures c = c.failed_requests

abbrev pub errors : ErrorCounter → ℕ
errors c = c.total_errors

request_counter_or_new-old :
    (o : Option RequestCounter)
    → (total (request_counter_or_new o) ≡ old total o)
      × (successes (request_counter_or_new o) ≡ old successes o)
      × (failures (request_counter_or_new o) ≡ old failures o)
request_counter_or_new-old none = (refl, refl, refl)
request_counter_or_new-old (some c) = (refl, refl, refl)

error_counter_or_new-old :
    (o : Option ErrorCounter) → errors (error_counter_or_new o) ≡ old errors o
error_counter_or_new-old none = refl
error_counter_or_new-old (some c) = refl

-- What is stored for a request.
abbrev pub stored : MiddlewareManager → String → Bool → ℕ → ℕ → RequestCounter
stored m i success time now =
    let c = count_request success now (request_counter_or_new (lookup i m.request_counters)) in
    record c { average_response_time = total_time c time / c.total_requests * 1_000_000 }

-- The sums over the counters: `n` requests, `k` of them successful, and as many errors as failures.
pub record Sums (m : MiddlewareManager) (n k : ℕ) : Type 0 where
  pub requests : sum total (values m.request_counters) ≡ n
  pub good : sum successes (values m.request_counters) ≡ k
  pub bad : sum failures (values m.request_counters) + k ≡ n
  pub failed : sum errors (values m.error_counters) + k ≡ n

average-some :
    (c : RequestCounter) (time : ℕ)
    → 1 ≤ c.total_requests
    → average c time
      ≡ some (record c { average_response_time = total_time c time / c.total_requests * 1_000_000 })
unfolding average
average-some c time positive = ground arith

pub record_request-stored :
    (m : MiddlewareManager) (i : String) (success : Bool) (time now n : ℕ)
    → sum total (values m.request_counters) ≡ n
    → n + 1 < 2 ^ 64
    → record_request m i success time now ≡ (store i (stored m i success time now) m, ok tt)
unfolding record_request count_request
record_request-stored m i success time now n requests small =
    let before = lookup i m.request_counters in
    let c = request_counter_or_new before in
    let present = request_counter_or_new-old before in
    let bound = sum-insert total i (record c { total_requests = 0 }) m.request_counters in
    let positive : 1 ≤ (count_request success now c).total_requests =
      omega (arith, present.0, bound) in
    ap (λ o. store_or_panic i (count_request success now c) o m)
      (average-some (count_request success now c) time positive)

pub stored-Sums :
    (m : MiddlewareManager) (i : String) (success : Bool) (time now n k : ℕ)
    → Sums m n k
    → n + 1 < 2 ^ 64
    → (sum total (values (insert i (stored m i success time now) m.request_counters)) ≡ n + 1)
      × (sum successes (values (insert i (stored m i success time now) m.request_counters))
          ≡ (if success then k + 1 else k))
      × (sum failures (values (insert i (stored m i success time now) m.request_counters))
            + (if success then k + 1 else k)
          ≡ n + 1)
unfolding count_request
stored-Sums m i true time now n k v small =
    let c = stored m i true time now in
    let present = request_counter_or_new-old (lookup i m.request_counters) in
    let t = sum-insert total i c m.request_counters in
    let g = sum-insert successes i c m.request_counters in
    let b = sum-insert failures i c m.request_counters in
    (
      omega (arith, v.requests, present.0, t),
      omega (arith, v.good, v.bad, present.1, g),
      omega (arith, v.bad, present.2, b),
    )
stored-Sums m i false time now n k v small =
    let c = stored m i false time now in
    let present = request_counter_or_new-old (lookup i m.request_counters) in
    let t = sum-insert total i c m.request_counters in
    let g = sum-insert successes i c m.request_counters in
    let b = sum-insert failures i c m.request_counters in
    (
      omega (arith, v.requests, present.0, t),
      omega (arith, v.good, present.1, g),
      omega (arith, v.bad, present.2, b),
    )

pub record_error-sum :
    (m : MiddlewareManager) (i : String) (status now : ℕ)
    → sum errors (values m.error_counters) + 1 < 2 ^ 64
    → sum errors (values (record_error m i status now).error_counters)
      ≡ sum errors (values m.error_counters) + 1
unfolding record_error count_error
record_error-sum m i status now small =
    let before = lookup i m.error_counters in
    omega (
      arith,
      error_counter_or_new-old before,
      sum-insert errors i (count_error status now (error_counter_or_new before)) m.error_counters,
    )
