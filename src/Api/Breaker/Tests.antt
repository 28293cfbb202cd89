-- ===== src/Api/Breaker/Tests.antt =====
-- The theorems about the breaker at concrete calls (src/api/middleware.rs).
use express402_relayer.Common.{ℕ, ◌≡◌, refl, suc, List, [], ◌∷◌}
use express402_relayer.Types.Error.{internal, Result, ok, err}
use express402_relayer.Api.Breaker.{
  closed, opened, half_open, new, refusal, trial, regular, handle_failure, set_state,
}
use express402_relayer.Api.Breaker.Recovery.{Event, called, passed, run}
use express402_relayer.Api.Breaker.Steps.{
  has_read, has_answer, System, Step, reads, refuses, operates, settles, wakes, Reach, here, next,
  write_back, IsDead, OnlyRefusals, trial_failed, trial-forever,
}
use express402_relayer.Api.Breaker.Threshold.{run-threshold}

-- Operations that count how often they are called.
abbrev fails : ℕ → ℕ × Result ℕ
fails n = (suc n, err (internal []))

abbrev works : ℕ → ℕ × Result ℕ
works n = (suc n, ok n)

-- A call fails, and the timeout goes by.
abbrev failed_once : List (Event ℕ ℕ)
failed_once = called works 1 ∷ called fails 2 ∷ called works 5 ∷ passed 12 ∷ []

-- A half open breaker whose trial has failed, while a call is in flight that has read the open breaker.
abbrev trying : System ℕ ℕ
trying = record {
  running = record {
    breaker = record { failure_threshold = 3; recovery_timeout = 10; state = half_open };
    wakes_at = [];
  };
  flights = has_answer half_open (err (internal [])) ∷ has_read opened ∷ [];
  world = 2;
  results = err (internal []) ∷ [];
}

abbrev start : System ℕ ℕ
start = record { running = new 3 10; flights = []; world = 0; results = [] }

-- A call fails, another one reads that the breaker is open, a task wakes up, and the trial fails.
trying_reached : Reach ℕ ℕ start trying
unfolding new write_back regular handle_failure set_state
trying_reached =
    next
      (next
        (next
          (next
            (next (next (next here (reads start)) (operates _ [] [] closed fails refl (λ e. cc)))
              (settles _ [] [] closed (err (internal [])) 2 refl))
            (reads _))
          (wakes _ [] [] 12 refl))
        (reads _))
      (operates _ [] (has_read opened ∷ []) half_open fails refl (λ e. cc))

abbrev failed : System ℕ ℕ
failed = trial_failed ℕ ℕ trying [] (has_read opened ∷ []) (internal []) 13

-- The trial has ended, the other call was refused, and a further call has read the state.
abbrev last : System ℕ ℕ
last = record failed {
  flights = has_read opened ∷ [];
  results = refusal ∷ err (internal []) ∷ err (internal []) ∷ [];
}

steps : Reach ℕ ℕ failed last
unfolding write_back trial set_state
steps = next (next here (refuses failed [] [] refl)) (reads _)

trial-forever_example : Step ℕ ℕ trying failed × IsDead ℕ ℕ last × OnlyRefusals ℕ ℕ failed last
trial-forever_example =
    trial-forever ℕ ℕ trying last [] (has_read opened ∷ []) (internal []) 13 refl refl (refl, tt)
      steps

run-threshold_example :
    (run ℕ ℕ failed_once (new 1 10) 0).1 ≡ (run ℕ ℕ failed_once (new 100 10) 0).1
run-threshold_example = run-threshold ℕ ℕ 1 100 10 failed_once 0
