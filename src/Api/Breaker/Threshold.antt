-- ===== src/Api/Breaker/Threshold.antt =====
-- The threshold of the breaker (src/api/middleware.rs, `failure_threshold`).
use express402_relayer.Common.{ℕ, ◌≡◌, refl, ap, ◌∙◌, List, [], ◌∷◌, leb, any, Bool-cases, inl, inr}
use express402_relayer.Types.Error.{Result, ok, err, panic}
use express402_relayer.Api.Breaker.{
  CircuitBreakerState, closed, opened, half_open, Running, new, set_state, handle_failure, wake,
  trial, regular, call_in, call,
}
use express402_relayer.Api.Breaker.Recovery.{Event, called, passed, with_result, run}

abbrev with_threshold : ℕ → Running → Running
with_threshold n s = record s { breaker = record s.breaker { failure_threshold = n } }

module _ (W R : Type 0) where
  abbrev lifted : {A : Type 0} → ℕ → Running × A → Running × A
  lifted n (s, a) = (with_threshold n s, a)

  trial-with_threshold :
      (n : ℕ) (s : Running) (answer : W × Result R)
      → trial (with_threshold n s) answer ≡ lifted n (trial s answer)
  unfolding trial set_state
  trial-with_threshold n s (w, ok r) = refl
  trial-with_threshold n s (w, err x) = refl
  trial-with_threshold n s (w, panic) = refl

  regular-with_threshold :
      (n now : ℕ) (s : Running) (answer : W × Result R)
      → regular now (with_threshold n s) answer ≡ lifted n (regular now s answer)
  unfolding regular handle_failure
  regular-with_threshold n now s (w, ok r) = refl
  regular-with_threshold n now s (w, err x) = refl
  regular-with_threshold n now s (w, panic) = refl

  call_in-with_threshold :
      (x : CircuitBreakerState) (n now : ℕ) (f : W → W × Result R) (s : Running) (w : W)
      → call_in x f now (with_threshold n s) w ≡ lifted n (call_in x f now s w)
  unfolding call_in
  call_in-with_threshold opened n now f s w = refl
  call_in-with_threshold half_open n now f s w = trial-with_threshold n s (f w)
  call_in-with_threshold closed n now f s w = regular-with_threshold n now s (f w)

  wake-with_threshold :
      (n now : ℕ) (s : Running) → wake now (with_threshold n s) ≡ with_threshold n (wake now s)
  unfolding wake
  wake-with_threshold n now s = elim (Bool-cases (any (λ t. leb t now) s.wakes_at)) [
    | inl woken ↦ rw woken refl
    | inr asleep ↦ rw asleep refl
  ]

  run-with_threshold :
      (n : ℕ) (es : List (Event W R)) (s : Running) (w : W)
      → run W R es (with_threshold n s) w ≡ lifted n (run W R es s w)
  unfolding run call
  run-with_threshold n [] s w = refl
  run-with_threshold n (called f now ∷ rest) s w =
      ap (λ c. with_result W R c.1.1 (run W R rest c.0 c.1.0))
        (call_in-with_threshold s.breaker.state n now f s w)
      ∙ ap (with_result W R (call f now s w).1.1)
          (run-with_threshold n rest (call f now s w).0 (call f now s w).1.0)
  run-with_threshold n (passed now ∷ rest) s w =
      ap (λ x. run W R rest x w) (wake-with_threshold n now s)
      ∙ run-with_threshold n rest (wake now s) w

  -- The failure threshold has no effect: whatever calls are made, one after another, and however the time
  -- passes, two breakers that differ in it alone give the same results and call the same operations.
  pub run-threshold :
      (m n timeout : ℕ) (es : List (Event W R)) (w : W)
      → (run W R es (new m timeout) w).1 ≡ (run W R es (new n timeout) w).1
  unfolding new
  run-threshold m n timeout es w = ap (λ r. r.1) (run-with_threshold m es (new n timeout) w)
