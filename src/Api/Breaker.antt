-- ===== src/Api/Breaker.antt =====
-- src/api/middleware.rs: `CircuitBreaker`. The state is shared with the tasks that `handle_failure`
-- spawns: each sleeps until its time, and then sets it to HalfOpen. The operation that is called reads
-- and changes a world of its own, so that it shows whether it was called. `call` is a call that nothing
-- interrupts; Breaker/Steps has the steps of a call, between which other calls and the sleeping tasks can
-- run.
mod Recovery
mod Steps
mod Threshold
mod Tests
use express402_relayer.Common.{
  ℕ, ◌+◌, Bool, not, List, [], ◌∷◌, ◌++◌, leb, if◌then◌else◌, any, retain,
}
use express402_relayer.Types.Error.{text, internal, Result, ok, err, panic}

pub data CircuitBreakerState : Type 0 where
  closed : CircuitBreakerState
  opened : CircuitBreakerState
  half_open : CircuitBreakerState

pub record CircuitBreaker : Type 0 where
  pub failure_threshold : ℕ
  pub recovery_timeout : ℕ
  pub state : CircuitBreakerState

-- The breaker and the times at which the sleeping tasks wake up.
pub record Running : Type 0 where
  pub breaker : CircuitBreaker
  pub wakes_at : List ℕ

unfoldable pub new : ℕ → ℕ → Running
new failure_threshold recovery_timeout = record {
  breaker = record {
    failure_threshold = failure_threshold;
    recovery_timeout = recovery_timeout;
    state = closed;
  };
  wakes_at = [];
}

unfoldable pub set_state : CircuitBreakerState → Running → Running
set_state state s = record s { breaker = record s.breaker { state = state } }

unfoldable pub handle_failure : ℕ → Running → Running
handle_failure now s = record {
  breaker = record s.breaker { state = opened };
  wakes_at = s.wakes_at ++ (now + s.breaker.recovery_timeout) ∷ [];
}

-- The time is now `now`: each task that has slept until then sets the state.
unfoldable pub wake : ℕ → Running → Running
wake now s =
    if any (λ t. leb t now) s.wakes_at
    then record {
      breaker = record s.breaker { state = half_open };
      wakes_at = retain (λ t. not (leb t now)) s.wakes_at;
    }
    else s

abbrev pub refusal : {R : Type 0} → Result R
refusal = err (internal (text "Circuit breaker is open" ∷ []))

module _ {W R : Type 0} where
  -- The call of a half open breaker.
  unfoldable pub trial : Running → W × Result R → Running × (W × Result R)
  unfolding set_state
  trial s (w, ok r) = (set_state closed s, (w, ok r))
  trial s (w, err e) = (set_state opened s, (w, err e))
  trial s (w, panic) = (s, (w, panic))

  -- The call of a closed breaker.
  unfoldable pub regular : ℕ → Running → W × Result R → Running × (W × Result R)
  unfolding handle_failure
  regular now s (w, ok r) = (s, (w, ok r))
  regular now s (w, err e) = (handle_failure now s, (w, err e))
  regular now s (w, panic) = (s, (w, panic))

  -- The match on the state that was read.
  unfoldable pub call_in :
      CircuitBreakerState → (W → W × Result R) → ℕ → Running → W → Running × (W × Result R)
  unfolding trial regular
  call_in opened f now s w = (s, (w, refusal))
  call_in half_open f now s w = trial s (f w)
  call_in closed f now s w = regular now s (f w)

  unfoldable pub call : (W → W × Result R) → ℕ → Running → W → Running × (W × Result R)
  unfolding call_in
  call f now s w = call_in s.breaker.state f now s w
