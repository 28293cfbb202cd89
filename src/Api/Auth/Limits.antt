-- ===== src/Api/Auth/Limits.antt =====
-- No identifier is granted more requests than its limits (src/api/auth.rs, `check_rate_limit`).
use express402_relayer.Common.{
  ℕ, ◌≤◌, ◌<◌, ◌≡◌, refl, Bool, true, ◌&&◌, List, [], ◌∷◌, ◌++◌, String, ltb, if◌then◌else◌, length,
  retain, count_if, lookup-insert, string_eq, arith,
}
use express402_relayer.Api.Auth.{
  RateLimit, RateLimiter, minute, hour, day, is_within, request_history, check_rate_limit,
}

pub count_if_mono :
    (p q : ℕ → Bool) (xs : List ℕ)
    → ((x : ℕ) → p x ≡ true → q x ≡ true)
    → count_if p xs ≤ count_if q xs
unfolding count_if
count_if_mono p q [] h = omega arith
count_if_mono p q (x ∷ xs) h = ground (arith, count_if_mono p q xs h, h x)

-- Dropping what is older than a day does not show in a count over a shorter span, then or later.
pub count_if-retain :
    (span t now : ℕ) (xs : List ℕ)
    → span ≤ day
    → t ≤ now
    → count_if (is_within span now) (retain (is_within day t) xs) ≡ count_if (is_within span now) xs
unfolding count_if retain
count_if-retain span t now [] h k = refl
count_if-retain span t now (x ∷ xs) h k = ground (arith, count_if-retain span t now xs h k)

length-retain : (p : ℕ → Bool) (xs : List ℕ) → length (retain p xs) ≡ count_if p xs
unfolding count_if retain
length-retain p [] = refl
length-retain p (x ∷ xs) = ground (arith, length-retain p xs)

pub data Span : Type 0 where
  per_minute per_hour per_day : Span

abbrev pub length_of : Span → ℕ
length_of per_minute = minute
length_of per_hour = hour
length_of per_day = day

abbrev pub limit_of : RateLimit → Span → ℕ
limit_of l per_minute = l.requests_per_minute
limit_of l per_hour = l.requests_per_hour
limit_of l per_day = l.requests_per_day

-- A request is granted only below each of the limits.
pub check_rate_limit-below :
    (r : RateLimiter) (i : String) (now : ℕ) (s : Span)
    → (check_rate_limit r i now).1 ≡ true
    → count_if (is_within (length_of s) now) (request_history r i) < limit_of r.limits s
unfolding check_rate_limit
check_rate_limit-below r i now per_minute e =
    ground (arith, count_if-retain minute now now (request_history r i))
check_rate_limit-below r i now per_hour e =
    ground (arith, count_if-retain hour now now (request_history r i))
check_rate_limit-below r i now per_day e =
    ground (arith, length-retain (is_within day now) (request_history r i))

-- What a check leaves of a history.
pub check_rate_limit-history :
    (r : RateLimiter) (i j : String) (now : ℕ)
    → request_history (check_rate_limit r i now).0 j ≡ (
        if string_eq.beq i j
        then (if (check_rate_limit r i now).1
            then retain (is_within day now) (request_history r i) ++ now ∷ []
            else retain (is_within day now) (request_history r i))
        else request_history r j)
unfolding check_rate_limit request_history
check_rate_limit-history r i j now = ground (
  arith,
  lookup-insert i j (retain (is_within day now) (request_history r i)) r.requests,
  lookup-insert i j (retain (is_within day now) (request_history r i) ++ now ∷ []) r.requests,
)

pub check_rate_limit-limits :
    (r : RateLimiter) (i : String) (now : ℕ) → (check_rate_limit r i now).0.limits ≡ r.limits
unfolding check_rate_limit
check_rate_limit-limits r i now = ground arith

-- A request is granted exactly when each of the three counts over the identifier's history is below
-- its limit.
check_rate_limit-decides :
    (r : RateLimiter) (i : String) (now : ℕ)
    → (check_rate_limit r i now).1 ≡ (
        ltb (count_if (is_within day now) (request_history r i)) r.limits.requests_per_day
        && (ltb (count_if (is_within hour now) (request_history r i)) r.limits.requests_per_hour
            && ltb
                (count_if (is_within minute now) (request_history r i))
                r.limits.requests_per_minute))
unfolding check_rate_limit
check_rate_limit-decides r i now = ground (
  arith,
  length-retain (is_within day now) (request_history r i),
  count_if-retain hour now now (request_history r i),
  count_if-retain minute now now (request_history r i),
)
