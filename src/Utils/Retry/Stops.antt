-- ===== src/Utils/Retry/Stops.antt =====
-- Where the loop of a retry stops, and what it returns (src/utils/retry.rs).
use express402_relayer.Common.{
  ℕ, zero, suc, ◌+◌, ◌≤◌, ◌<◌, ◌≡◌, refl, ◌⊎◌, inl, inr, Bool, true, false, not, some, String, List,
  [], length, arith,
}
use express402_relayer.Common.Float.{F64}
use express402_relayer.Utils.Retry.{
  Durations, RetryConfig, Outcome, success, failure, End, done, gave_up, Run, is_retryable,
  next_delay, attempt_from, attempt_all, after_sleep,
}

module _ {E T : Type 0} (patterns : List String) (error_string : E → List ℕ) where
  -- An answer that ends the loop: a success, or an error that no pattern allows to retry.
  abbrev pub is_final : Outcome E T → Bool
  is_final (success t) = true
  is_final (failure e) = not (is_retryable patterns (error_string e))

  retryable-failure :
      (o : Outcome E T)
      → is_final o ≡ false
      → (e : E) × (o ≡ failure e) × (is_retryable patterns (error_string e) ≡ true)
  retryable-failure (success t) h = cc
  retryable-failure (failure e) h = (e, refl, ground arith)

-- What the loop makes of the last answer.
abbrev pub verdict : {E T : Type 0} → Outcome E T → End E T
verdict (success t) = done t
verdict (failure e) = gave_up e

module _ (F : F64) (D : Durations F) {E T : Type 0} (error_string : E → List ℕ) where
  -- A loop that ends with its first call.
  abbrev pub stopped : Outcome E T → Run E T
  stopped o = record { calls = 1; sleeps = []; end = verdict o }

  pub at_last :
      (c : RetryConfig F) (delay : ℕ) (outcomes : ℕ → Outcome E T) (o : Outcome E T)
      → outcomes 0 ≡ o
      → attempt_from F D error_string c 0 delay outcomes ≡ stopped o
  unfolding attempt_from
  at_last c delay outcomes (success t) e = rw (e, attempt_from) refl
  at_last c delay outcomes (failure x) e = rw (e, attempt_from) refl

  pub at_final :
      (c : RetryConfig F) (left delay : ℕ) (outcomes : ℕ → Outcome E T) (o : Outcome E T)
      → outcomes 0 ≡ o
      → is_final c.retryable_errors error_string o ≡ true
      → attempt_from F D error_string c (suc left) delay outcomes ≡ stopped o
  unfolding attempt_from
  at_final c left delay outcomes (success t) e h = rw (e, attempt_from) refl
  at_final c left delay outcomes (failure x) e h =
      let gives_up : is_retryable c.retryable_errors (error_string x) ≡ false = ground arith in
      rw (e, attempt_from) (rw gives_up refl)

  at_retry :
      (c : RetryConfig F) (left delay later : ℕ) (outcomes : ℕ → Outcome E T) (x : E)
      → outcomes 0 ≡ failure x
      → is_retryable c.retryable_errors (error_string x) ≡ true
      → next_delay F D c delay ≡ some later
      → attempt_from F D error_string c (suc left) delay outcomes
        ≡ after_sleep F D error_string delay
            (attempt_from F D error_string c left later (λ i. outcomes (suc i)))
  unfolding attempt_from
  at_retry c left delay later outcomes x e h n = rw (e, attempt_from) (rw h (rw n refl))

  attempt_from-stops :
      (stop left delay : ℕ) (c : RetryConfig F) (outcomes : ℕ → Outcome E T)
      → stop ≤ left
      → ((d : ℕ) → (n : ℕ) × (next_delay F D c d ≡ some n))
      → ((i : ℕ) → i < stop → is_final c.retryable_errors error_string (outcomes i) ≡ false)
      → (stop ≡ left) ⊎ (is_final c.retryable_errors error_string (outcomes stop) ≡ true)
      → ((attempt_from F D error_string c left delay outcomes).calls ≡ stop + 1)
        × (length (attempt_from F D error_string c left delay outcomes).sleeps ≡ stop)
        × ((attempt_from F D error_string c left delay outcomes).end ≡ verdict (outcomes stop))
  attempt_from-stops zero zero delay c outcomes le total before ends =
      rw (at_last c delay outcomes (outcomes 0) refl) (refl, refl, refl)
  attempt_from-stops zero (suc left) delay c outcomes le total before (inl last) =
      absurd (omega arith)
  attempt_from-stops zero (suc left) delay c outcomes le total before (inr final) =
      rw (at_final c left delay outcomes (outcomes 0) refl final) (refl, refl, refl)
  attempt_from-stops (suc stop) zero delay c outcomes le total before ends = absurd (omega arith)
  attempt_from-stops (suc stop) (suc left) delay c outcomes le total before ends =
      let (x, failed, allowed) =
        retryable-failure c.retryable_errors error_string (outcomes 0) (before 0 (omega arith)) in
      let (later, n) = total delay in
      let (calls, sleeps, end) =
        attempt_from-stops stop left later c (λ i. outcomes (suc i)) (omega arith) total
          (λ i h. before (suc i) (omega arith)) (shifted ends) in
      rw (at_retry c left delay later outcomes x failed allowed n) (omega arith, omega arith, end)
    where
      shifted :
          (suc stop ≡ suc left)
            ⊎ (is_final c.retryable_errors error_string (outcomes (suc stop)) ≡ true)
          → (stop ≡ left) ⊎ (is_final c.retryable_errors error_string (outcomes (suc stop)) ≡ true)
      shifted (inl e) = inl (omega arith)
      shifted (inr e) = inr e

  -- With a delay for every next attempt, the operation is called until the first answer that is final, a
  -- success or an error that no pattern allows to retry, or until the retries are used up: after `stop`
  -- retries it has been called once more than that, has slept before each retry, and ends with the last
  -- answer.
  pub attempt_all-stops :
      (stop : ℕ) (c : RetryConfig F) (outcomes : ℕ → Outcome E T)
      → stop ≤ c.max_retries
      → ((d : ℕ) → (n : ℕ) × (next_delay F D c d ≡ some n))
      → ((i : ℕ) → i < stop → is_final c.retryable_errors error_string (outcomes i) ≡ false)
      → (stop ≡ c.max_retries) ⊎ (is_final c.retryable_errors error_string (outcomes stop) ≡ true)
      → ((attempt_all F D error_string c outcomes).calls ≡ stop + 1)
        × (length (attempt_all F D error_string c outcomes).sleeps ≡ stop)
        × ((attempt_all F D error_string c outcomes).end ≡ verdict (outcomes stop))
  unfolding attempt_all
  attempt_all-stops stop c outcomes le total before ends =
      attempt_from-stops stop c.max_retries c.initial_delay c outcomes le total before ends
