-- ===== src/Api/Auth.antt =====
-- src/api/auth.rs: `AuthManager`, the API keys, and `RateLimiter`, the requests of each identifier in the
-- last day. The methods never fail, so a result stands for its `Ok`. Each reading of the clock is an
-- argument, in nanoseconds, and a test `time > now - d` is written `now < time + d`.
mod Limits
mod Windows
mod Keys
mod Tests
use express402_relayer.Common.{
  ℕ, suc, ◌+◌, ◌-◌, ◌*◌, ◌%◌, ◌^◌, Bool, true, false, not, Option, none, some, List, [], ◌∷◌, ◌++◌,
  String, ltb, leb, if◌then◌else◌, length, retain, count_if, Map, lookup, insert, update, string_eq,
}

pub record RateLimit : Type 0 where
  pub requests_per_minute : ℕ  -- u32
  pub requests_per_hour : ℕ  -- u32
  pub requests_per_day : ℕ  -- u32

pub record ApiKeyInfo : Type 0 where
  pub key : String
  pub name : String
  pub permissions : List String
  pub rate_limit : RateLimit
  pub created_at : ℕ
  pub last_used : Option ℕ
  pub is_active : Bool

pub record AuthManager : Type 0 where
  pub api_keys : Map String ApiKeyInfo
  pub jwt_secret : String

pub record ApiKeyStats : Type 0 where
  pub total_keys : ℕ
  pub active_keys : ℕ
  pub inactive_keys : ℕ

unfoldable pub new_manager : String → AuthManager
new_manager jwt_secret = record { api_keys = []; jwt_secret = jwt_secret }

unfoldable pub add_api_key : AuthManager → ApiKeyInfo → AuthManager
add_api_key m api_key = record m { api_keys = insert api_key.key api_key m.api_keys }

unfoldable pub validate_api_key : AuthManager → String → ℕ → AuthManager × Option ApiKeyInfo
validate_api_key m key now = elim (lookup key m.api_keys) [
  | none ↦ (m, none)
  | some api_key ↦ if not api_key.is_active then (m, none) else (
    record m {
      api_keys = update key (λ (k : ApiKeyInfo). record k { last_used = some now }) m.api_keys;
    },
    some (record api_key { last_used = some now }),
  )
]

unfoldable pub revoke_api_key : AuthManager → String → AuthManager × Bool
revoke_api_key m key = elim (lookup key m.api_keys) [
  | none ↦ (m, false)
  | some _ ↦ (
    record m {
      api_keys = update key (λ (k : ApiKeyInfo). record k { is_active = false }) m.api_keys;
    },
    true,
  )
]

unfoldable pub get_api_key_stats : AuthManager → ApiKeyStats
get_api_key_stats m = record {
  total_keys = total;
  active_keys = active;
  inactive_keys = total - active;
}
  where
    total : ℕ
    total = length m.api_keys

    active : ℕ
    active = count_if (λ (e : String × ApiKeyInfo). e.1.is_active) m.api_keys

pub record RateLimiter : Type 0 where
  pub requests : Map String (List ℕ)
  pub limits : RateLimit

pub record RateLimitStats : Type 0 where
  pub identifier : String
  pub requests_last_minute : ℕ
  pub requests_last_hour : ℕ
  pub requests_last_day : ℕ
  pub limit_per_minute : ℕ
  pub limit_per_hour : ℕ
  pub limit_per_day : ℕ

unfoldable pub new_limiter : RateLimit → RateLimiter
new_limiter limits = record { requests = []; limits = limits }

-- The spans of the limits, in nanoseconds.
abbrev pub minute : ℕ
minute = 60 * 1_000_000_000

abbrev pub hour : ℕ
hour = 3600 * 1_000_000_000

abbrev pub day : ℕ
day = 86400 * 1_000_000_000

-- `time > now - span`.
abbrev pub is_within : ℕ → ℕ → ℕ → Bool
is_within span now time = ltb now (time + span)

-- The requests of an identifier, none for an unknown one.
unfoldable pub request_history : RateLimiter → String → List ℕ
request_history r identifier = elim (lookup identifier r.requests) [ none ↦ [] | some xs ↦ xs ]

abbrev pub set_history : RateLimiter → String → List ℕ → RateLimiter
set_history r identifier xs = record r { requests = insert identifier xs r.requests }

unfoldable pub check_rate_limit : RateLimiter → String → ℕ → RateLimiter × Bool
unfolding request_history
check_rate_limit r identifier now =
    if leb r.limits.requests_per_day (length history)
    then (set_history r identifier history, false)
    else if leb r.limits.requests_per_hour (count_if (is_within hour now) history)
    then (set_history r identifier history, false)
    else if leb r.limits.requests_per_minute (count_if (is_within minute now) history)
    then (set_history r identifier history, false)
    else (set_history r identifier (history ++ now ∷ []), true)
  where
    history : List ℕ
    history = retain (is_within day now) (request_history r identifier)

-- The counts are converted to `u32`. An unknown identifier has no requests.
unfoldable pub get_rate_limit_stats : RateLimiter → String → ℕ → RateLimitStats
unfolding request_history
get_rate_limit_stats r identifier now = record {
  identifier = identifier;
  requests_last_minute = count_if (is_within minute now) history % 2 ^ 32;
  requests_last_hour = count_if (is_within hour now) history % 2 ^ 32;
  requests_last_day = count_if (is_within day now) history % 2 ^ 32;
  limit_per_minute = r.limits.requests_per_minute;
  limit_per_hour = r.limits.requests_per_hour;
  limit_per_day = r.limits.requests_per_day;
}
  where
    history : List ℕ
    history = request_history r identifier
