-- ===== src/Api/Middleware.antt =====
-- src/api/middleware.rs: `MiddlewareManager` with its counters, and the middlewares. Durations are in
-- nanoseconds. The handler that `next` runs is outside the code: its response is an argument. A header
-- whose value is not text is `none`.
mod Sums
mod Counts
mod Tests
use express402_relayer.Common.{
  ℕ, ◌+◌, ◌-◌, ◌*◌, ◌/◌, Bool, true, false, not, ◌&&◌, Option, none, some, String, List, [], ◌∷◌,
  ltb, leb, ◌==◌, if◌then◌else◌, length, Map, lookup, insert, nat_eq, string_eq, ◌⊎◌, inl, inr,
}
use express402_relayer.Common.Float.{F64}
use express402_relayer.Types.Error.{Result, ok, err, panic}
use express402_relayer.Types.Wallet.{u64}

pub record RequestCounter : Type 0 where
  pub total_requests : ℕ
  pub successful_requests : ℕ
  pub failed_requests : ℕ
  pub last_request_time : Option ℕ
  pub average_response_time : ℕ

pub record ErrorCounter : Type 0 where
  pub total_errors : ℕ
  pub error_types : Map ℕ ℕ
  pub last_error_time : Option ℕ

pub record MiddlewareManager : Type 0 where
  pub request_counters : Map String RequestCounter
  pub error_counters : Map String ErrorCounter

unfoldable pub new : MiddlewareManager
new = record { request_counters = []; error_counters = [] }

-- `or_insert_with` of `record_request` and of `record_error`.
abbrev pub request_counter_or_new : Option RequestCounter → RequestCounter
request_counter_or_new none = record {
  total_requests = 0;
  successful_requests = 0;
  failed_requests = 0;
  last_request_time = none;
  average_response_time = 0;
}
request_counter_or_new (some c) = c

abbrev pub error_counter_or_new : Option ErrorCounter → ErrorCounter
error_counter_or_new none = record { total_errors = 0; error_types = []; last_error_time = none }
error_counter_or_new (some c) = c

unfoldable pub count_request : Bool → ℕ → RequestCounter → RequestCounter
count_request success now c = record c {
  total_requests = u64 (c.total_requests + 1);
  successful_requests = if success then u64 (c.successful_requests + 1) else c.successful_requests;
  failed_requests = if success then c.failed_requests else u64 (c.failed_requests + 1);
  last_request_time = some now;
}

abbrev pub as_millis : ℕ → ℕ
as_millis duration = duration / 1_000_000

-- The total of the times, of a counter whose requests have been counted already.
unfoldable pub total_time : RequestCounter → ℕ → ℕ
total_time c response_time = u64 (
    u64 (u64 (as_millis c.average_response_time) * (c.total_requests - 1))
    + u64 (as_millis response_time))

-- The new average. The division panics (`none`) if the count of the requests has come round to 0.
unfoldable pub average : RequestCounter → ℕ → Option RequestCounter
unfolding total_time
average c response_time =
    if c.total_requests == 0
    then none
    else some (record c {
      average_response_time = total_time c response_time / c.total_requests * 1_000_000;
    })

abbrev pub store : String → RequestCounter → MiddlewareManager → MiddlewareManager
store identifier c m = record m { request_counters = insert identifier c m.request_counters }

abbrev pub store_or_panic :
    String
    → RequestCounter
    → Option RequestCounter
    → MiddlewareManager
    → MiddlewareManager × Result (Unit {0})
store_or_panic identifier counted none m = (store identifier counted m, panic)
store_or_panic identifier counted (some c) m = (store identifier c m, ok tt)

unfoldable pub record_request :
    MiddlewareManager → String → Bool → ℕ → ℕ → MiddlewareManager × Result (Unit {0})
unfolding lookup count_request average
record_request m identifier success response_time now =
    let counted =
      count_request success now (request_counter_or_new (lookup identifier m.request_counters)) in
    store_or_panic identifier counted (average counted response_time) m

abbrev pub or_zero : Option ℕ → ℕ
or_zero none = 0
or_zero (some n) = n

unfoldable pub count_error : ℕ → ℕ → ErrorCounter → ErrorCounter
count_error status_code now c = record {
  total_errors = u64 (c.total_errors + 1);
  error_types =
      insert status_code (u64 (or_zero (lookup status_code c.error_types) + 1)) c.error_types;
  last_error_time = some now;
}

unfoldable pub record_error : MiddlewareManager → String → ℕ → ℕ → MiddlewareManager
unfolding count_error
record_error m identifier status_code now = record m {
  error_counters =
      insert identifier
        (count_error status_code now (error_counter_or_new (lookup identifier m.error_counters)))
        m.error_counters;
}

-- The loop over the counters, `+=` of one field.
unfoldable pub sum_from {ℓ} : {C : Type ℓ} → (C → ℕ) → ℕ → List C → ℕ
sum_from field acc [] = acc
sum_from field acc (c ∷ rest) = sum_from field (u64 (acc + field c)) rest

abbrev pub values {ℓ} : {K V : Type ℓ} → Map K V → List V
values [] = []
values ((k, v) ∷ m) = v ∷ values m

module _ (F : F64) where
  open F use {Carrier, of_u64, decimal, div}

  pub record MiddlewareStats : Type 0 where
    pub total_requests : ℕ
    pub total_successful : ℕ
    pub total_failed : ℕ
    pub total_errors : ℕ
    pub success_rate : Carrier
    pub active_identifiers : ℕ

  unfoldable pub get_stats : MiddlewareManager → MiddlewareStats
  unfolding sum_from
  get_stats m =
      let requests =
        sum_from (λ (c : RequestCounter). c.total_requests) 0 (values m.request_counters) in
      let successes =
        sum_from (λ (c : RequestCounter). c.successful_requests) 0 (values m.request_counters) in
      record {
        total_requests = requests;
        total_successful = successes;
        total_failed =
            sum_from (λ (c : RequestCounter). c.failed_requests) 0 (values m.request_counters);
        total_errors = sum_from (λ (c : ErrorCounter). c.total_errors) 0 (values m.error_counters);
        success_rate =
            if ltb 0 requests then div (of_u64 successes) (of_u64 requests) else decimal 0 0;
        active_identifiers = length m.request_counters;
      }

-- `HeaderMap::get`, then `to_str().ok()`.
abbrev pub Headers : Type 0
Headers = Map String (Option String)

abbrev pub or_else : {A : Type 0} → Option A → Option A → Option A
or_else none o = o
or_else (some a) o = some a

abbrev pub and_then : {A B : Type 0} → Option A → (A → Option B) → Option B
and_then none f = none
and_then (some a) f = f a

abbrev pub unwrap_or_else : {A : Type 0} → Option A → A → A
unwrap_or_else none a = a
unwrap_or_else (some a) b = a

unfoldable pub extract_identifier : Headers → String
unfolding lookup
extract_identifier headers =
    unwrap_or_else
      (and_then (or_else (lookup "x-forwarded-for" headers) (lookup "x-real-ip" headers)) (λ h. h))
      (unwrap_or_else (and_then (lookup "user-agent" headers) (λ h. h)) "unknown")

-- `StatusCode::is_success`.
abbrev pub is_success : ℕ → Bool
is_success status = leb 200 status && ltb status 300

-- What `metrics_middleware` does after the request has been recorded.
unfoldable pub respond :
    String → ℕ → ℕ → MiddlewareManager × Result (Unit {0}) → MiddlewareManager × Result ℕ
unfolding record_error
respond identifier status now (m, ok done) =
    (if is_success status then m else record_error m identifier status now, ok status)
respond identifier status now (m, err e) = (m, err e)
respond identifier status now (m, panic) = (m, panic)

-- `metrics_middleware`: the status of the response, how long the handler took, and the readings of the clock
-- by the two records.
unfoldable pub metrics_middleware :
    MiddlewareManager → Headers → ℕ → ℕ → ℕ → ℕ → MiddlewareManager × Result ℕ
unfolding record_request extract_identifier respond
metrics_middleware m headers status duration now now' =
    let identifier = extract_identifier headers in
    respond identifier status now' (record_request m identifier (is_success status) duration now)

-- The other middlewares change the headers of the request or of the response and nothing else of it.
unfoldable pub request_id_middleware : String → Headers → Headers
request_id_middleware request_id headers = insert "x-request-id" (some request_id) headers

unfoldable pub compression_middleware : Headers → Headers
compression_middleware headers = insert "content-encoding" (some "gzip") headers

unfoldable pub security_headers_middleware : Headers → Headers
security_headers_middleware headers = insert "content-security-policy" (some "default-src 'self'") (
    insert "strict-transport-security" (some "max-age=31536000; includeSubDomains") (
      insert "x-xss-protection" (some "1; mode=block") (
        insert "x-frame-options" (some "DENY")
          (insert "x-content-type-options" (some "nosniff") headers))))

-- The response after the time that it takes, or the status of a timeout.
unfoldable pub timeout_middleware : {A : Type 0} → ℕ → A → A ⊎ ℕ
timeout_middleware duration response =
    if leb duration (30 * 1_000_000_000) then inl response else inr 408
