-- ===== src/Api/Auth/Windows.antt =====
-- The requests granted to an identifier over any calls (src/api/auth.rs, `check_rate_limit`).
use express402_relayer.Common.{
  ℕ, ◌+◌, ◌≤◌, ◌<◌, ◌≡◌, refl, sym, ◌∙◌, inl, inr, Bool, true, false, ◌&&◌, List, [], ◌∷◌, ◌++◌,
  String, ltb, leb, if◌then◌else◌, retain, count_if, count_if-append, lookup, string_eq, Bool-cases,
  arith,
}
use express402_relayer.Api.Auth.{
  RateLimit, RateLimiter, new_limiter, day, is_within, request_history, check_rate_limit,
}
use express402_relayer.Api.Auth.Limits.{
  Span, length_of, limit_of, count_if_mono, count_if-retain, check_rate_limit-below,
  check_rate_limit-history, check_rate_limit-limits,
}

-- The times at which calls for `j` were granted.
unfoldable pub granted : RateLimiter → String → List (String × ℕ) → List ℕ
granted r j [] = []
granted r j ((i, t) ∷ calls) =
    let checked = check_rate_limit r i t in
    let rest = granted checked.0 j calls in
    if string_eq.beq i j && checked.1 then t ∷ rest else rest

-- The clock does not run backwards.
abbrev pub Ordered : ℕ → List (String × ℕ) → Type 0
Ordered c [] = Unit
Ordered c ((i, t) ∷ calls) = (c ≤ t) × Ordered t calls

-- The time lies in the window of the span that begins at `w`.
abbrev pub in_window : ℕ → ℕ → ℕ → Bool
in_window w span t = leb w t && ltb t (w + span)

-- The times granted so far keep the limit in every window, and the history knows those that still count.
record Counts (r : RateLimiter) (j : String) (c : ℕ) (log : List ℕ) (s : Span) : Type 0 where
  kept : (w : ℕ) → count_if (in_window w (length_of s)) log ≤ limit_of r.limits s
  known :
      (now : ℕ)
      → c ≤ now
      → count_if (is_within (length_of s) now) log
        ≡ count_if (is_within (length_of s) now) (request_history r j)

span-le : (s : Span) → length_of s ≤ day
span-le s = ground arith

count-one : (p : ℕ → Bool) (t : ℕ) → count_if p (t ∷ []) ≡ (if p t then 1 else 0)
unfolding count_if
count-one p t = ground arith

-- One more time in the log, where the count of its own window is below the limit.
kept-more :
    (log : List ℕ) (span limit t w : ℕ)
    → count_if (in_window w span) log ≤ limit
    → count_if (is_within span t) log < limit
    → count_if (in_window w span) (log ++ t ∷ []) ≤ limit
kept-more log span limit t w h below = elim (Bool-cases (in_window w span t)) [
  | inl inside ↦ ground (
    arith,
    count_if-append (in_window w span) log (t ∷ []),
    count-one (in_window w span) t,
    fewer inside,
  )
  | inr outside ↦
      ground
        (arith, count_if-append (in_window w span) log (t ∷ []), count-one (in_window w span) t)
]
  where
    fewer :
        in_window w span t ≡ true
        → count_if (in_window w span) log ≤ count_if (is_within span t) log
    fewer inside = count_if_mono (in_window w span) (is_within span t) log (λ x e. ground arith)

-- The log after one call.
abbrev logged : RateLimiter → String → String → ℕ → List ℕ → List ℕ
logged r i j t log = if string_eq.beq i j && (check_rate_limit r i t).1 then log ++ t ∷ [] else log

new-Counts :
    (limits : RateLimit) (j : String) (c : ℕ) (s : Span) → Counts (new_limiter limits) j c [] s
unfolding new_limiter request_history lookup count_if
new-Counts limits j c s = record { kept = λ w. omega arith; known = λ now h. refl }

-- A granted call for `j` leaves its own time at the end of the pruned history.
granted-history :
    (r : RateLimiter) (i j : String) (t : ℕ)
    → (string_eq.beq i j && (check_rate_limit r i t).1) ≡ true
    → request_history (check_rate_limit r i t).0 j
      ≡ retain (is_within day t) (request_history r j) ++ t ∷ []
granted-history r i j t g =
    let same : i ≡ j = (string_eq.beq_iff i j).0 (ground arith) in
    check_rate_limit-history r i j t ∙ ground (arith, same)

-- Any other call leaves the history of `j`, or drops what is older than a day.
other-history :
    (r : RateLimiter) (i j : String) (t span now : ℕ)
    → (string_eq.beq i j && (check_rate_limit r i t).1) ≡ false
    → span ≤ day
    → t ≤ now
    → count_if (is_within span now) (request_history (check_rate_limit r i t).0 j)
      ≡ count_if (is_within span now) (request_history r j)
other-history r i j t span now g short later = elim (Bool-cases (string_eq.beq i j)) [
  | inl same ↦
      let equal : i ≡ j = (string_eq.beq_iff i j).0 same in
      let pruned : request_history (check_rate_limit r i t).0 j
          ≡ retain (is_within day t) (request_history r j) =
        check_rate_limit-history r i j t ∙ ground (arith, equal) in
      rw pruned (count_if-retain span t now (request_history r j) short later)
  | inr different ↦
      let kept : request_history (check_rate_limit r i t).0 j ≡ request_history r j =
        check_rate_limit-history r i j t ∙ ground arith in
      rw kept refl
]

step-Counts :
    (r : RateLimiter) (i j : String) (c t : ℕ) (log : List ℕ) (s : Span)
    → c ≤ t
    → Counts r j c log s
    → Counts (check_rate_limit r i t).0 j t (logged r i j t log) s
step-Counts r i j c t log s h k =
    elim (Bool-cases (string_eq.beq i j && (check_rate_limit r i t).1)) [
      | inl g ↦
          let same : i ≡ j = (string_eq.beq_iff i j).0 (ground arith) in
          let yes : (check_rate_limit r i t).1 ≡ true = ground arith in
          let below : count_if (is_within (length_of s) t) log < limit_of r.limits s =
            rw (k.known t h, ← same) (check_rate_limit-below r i t s yes) in
          rw g (record {
            kept = λ w.
                rw (check_rate_limit-limits r i t)
                  (kept-more log (length_of s) (limit_of r.limits s) t w (k.kept w) below);
            known = λ now later.
                rw
                  (
                    granted-history r i j t g,
                    count_if-append (is_within (length_of s) now) log (t ∷ []),
                    count_if-append (is_within (length_of s) now)
                        (retain (is_within day t) (request_history r j)) (t ∷ []),
                    count_if-retain (length_of s) t now (request_history r j) (span-le s) later,
                    k.known now (omega arith),
                  )
                  refl;
          })
      | inr g ↦ rw g (record {
        kept = λ w. rw (check_rate_limit-limits r i t) (k.kept w);
        known = λ now later.
            k.known now (omega arith)
            ∙ sym (other-history r i j t (length_of s) now g (span-le s) later);
      })
    ]

granted-Counts :
    (r : RateLimiter) (j : String) (c : ℕ) (log : List ℕ) (s : Span) (calls : List (String × ℕ))
    (w : ℕ)
    → Ordered c calls
    → Counts r j c log s
    → count_if (in_window w (length_of s)) log
        + count_if (in_window w (length_of s)) (granted r j calls)
      ≤ limit_of r.limits s
unfolding granted count_if
granted-Counts r j c log s [] w o k = ground (arith, k.kept w)
granted-Counts r j c log s ((i, t) ∷ calls) w o k =
    let later =
      granted-Counts (check_rate_limit r i t).0 j t (logged r i j t log) s calls w o.1
        (step-Counts r i j c t log s o.0 k) in
    ground (
      arith,
      later,
      check_rate_limit-limits r i t,
      count_if-append (in_window w (length_of s)) log (t ∷ []),
    )

-- Whatever calls are made on a new limiter, for whatever identifiers, no identifier is granted more
-- requests in any minute, hour or day than its limit for that span, as long as the clock does not run
-- backwards.
pub granted-limit :
    (limits : RateLimit) (j : String) (calls : List (String × ℕ)) (c w : ℕ) (s : Span)
    → Ordered c calls
    → count_if (in_window w (length_of s)) (granted (new_limiter limits) j calls)
      ≤ limit_of limits s
unfolding new_limiter
granted-limit limits j calls c w s o =
    let first : Counts (new_limiter limits) j c [] s = new-Counts limits j c s in
    let all = granted-Counts (new_limiter limits) j c [] s calls w o first in omega arith
