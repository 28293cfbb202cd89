-- ===== src/Api/Auth/Tests.antt =====
-- The theorems about keys and limits at concrete calls (src/api/auth.rs).
use express402_relayer.Common.{
  ℕ, ◌≤◌, ◌≡◌, refl, true, none, List, [], ◌∷◌, String, count_if, string_eq, arith,
}
use express402_relayer.Api.Auth.{
  RateLimit, RateLimiter, AuthManager, new_limiter, minute, validate_api_key, revoke_api_key,
}
use express402_relayer.Api.Auth.Limits.{per_minute}
use express402_relayer.Api.Auth.Windows.{granted, in_window, granted-limit}
use express402_relayer.Api.Auth.Keys.{validates, revokes, run, validate_api_key-revoked}

abbrev limits : RateLimit
limits = record { requests_per_minute = 2; requests_per_hour = 10; requests_per_day = 100 }

abbrev calls : List (String × ℕ)
calls = ("a", 10) ∷ ("a", 20) ∷ ("b", 30) ∷ ("a", 40) ∷ []

granted-limit_example : count_if (in_window 0 minute) (granted (new_limiter limits) "a" calls) ≤ 2
granted-limit_example =
    granted-limit limits "a" calls 0 0 per_minute
      (omega arith, (omega arith, (omega arith, (omega arith, tt))))

abbrev used : RateLimiter
used = record { requests = ("a", 10 ∷ []) ∷ []; limits = limits }

abbrev manager : AuthManager
manager = record {
  api_keys =
      (
        "k",
        record {
          key = "k";
          name = "test";
          permissions = [];
          rate_limit = limits;
          created_at = 1;
          last_used = none;
          is_active = true;
        },
      )
      ∷ [];
  jwt_secret = "secret";
}

validate_api_key-revoked_example :
    (validate_api_key
      (run (revoke_api_key manager "k").0 (validates "k" 5 ∷ revokes "other" ∷ []))
      "k"
      9).1
    ≡ none
validate_api_key-revoked_example =
    validate_api_key-revoked manager "k" (validates "k" 5 ∷ revokes "other" ∷ []) 9
      (refl, (refl, tt))
