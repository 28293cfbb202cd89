-- ===== src/Queue/Executor/Drain.antt =====
-- The execution loop over several turns (src/queue/executor.rs, `start_execution_loop`).
use express402_relayer.Common.{
  Bool, ◌||◌, ◌==◌, any, ℕ, ◌≤◌, ◌≡◌, refl, sym, subst, inl, inr, Option-cases, List-cases, some,
  none, List, [], ◌∷◌, length, All, arith,
}
use express402_relayer.Common.Float.{F64}
use express402_relayer.Common.Uint.{Uint}
use express402_relayer.Queue.Heap
use express402_relayer.Queue.Scheduler.{has_id, ScheduledTask, cmp, get_next_task}
use express402_relayer.Queue.Executor.{
  TaskExecutor, Attempt, Turn, idle, ran, crashed, run_on, turn_with, turn_of, turn, run,
  execute_task,
}
use express402_relayer.Queue.Executor.Iteration.{is_recorded, turn-turn_with, turn-Ended_calm}
use express402_relayer.Queue.Executor.Panics.{
  InRange, FitsRequest, FitsOracle, FitsAttempt, SameWorld, execute_task-no_panic,
}

or_rotate : (a b c : Bool) → (a || (b || c)) ≡ ((b || a) || c)
or_rotate a b c = ground arith

module _ (F : F64) (U : Uint) where
  -- Nothing is in progress, and no execution of a waiting task can panic.
  pub record Ready (x : TaskExecutor F U) (attempts : List Attempt) : Type 0 where
    pub none_running : x.task_scheduler.processing_queue ≡ []
    pub fits : All (λ t. FitsRequest t.request) x.task_scheduler.priority_queue
    pub fits_oracle : FitsOracle F U x.gas_price_oracle
    pub draws : All (λ a. InRange x.wallet_pool.active_wallets a.draw) attempts
    pub answers : All FitsAttempt attempts

  turn_with-world :
      (x : TaskExecutor F U) (a : Attempt) (task : ScheduledTask)
      → SameWorld F U x (execute_task F U x a task).0
      → SameWorld F U x (turn_with F U x a task).0
  unfolding turn_with
  turn_with-world x a task h = h

  turn-idle :
      (x : TaskExecutor F U) (a : Attempt)
      → Heap.pop cmp x.task_scheduler.priority_queue ≡ none
      → turn F U x a ≡ (x, idle)
  unfolding turn turn_of get_next_task
  turn-idle x a e = ground arith

  -- One turn of a loop that is ready, with the first task of the heap.
  record Turned (x y : TaskExecutor F U) (task : ScheduledTask) (rest : List ScheduledTask)
      (later : List Attempt) : Type 0 where
    ready : Ready y later
    queue : y.task_scheduler.priority_queue ≡ rest
    recorded :
        (j : ℕ) → is_recorded y.task_scheduler j ≡ (task.id == j || is_recorded x.task_scheduler j)

  turn-Turned :
      (x : TaskExecutor F U) (a : Attempt) (later : List Attempt) (task : ScheduledTask)
      (rest : List ScheduledTask)
      → Ready x (a ∷ later)
      → Heap.pop cmp x.task_scheduler.priority_queue ≡ some (task, rest)
      → Turned x (turn F U x a).0 task rest later × ((turn F U x a).1 ≡ ran)
  turn-Turned x a later task rest r popped =
      let left : TaskExecutor F U = record x {
        task_scheduler = record x.task_scheduler { priority_queue = rest };
      } in
      let (fits_task, fits_rest) =
        Heap.All-pop cmp (λ t. FitsRequest t.request) _ _ popped r.fits in
      let (calm, same) =
        execute_task-no_panic F U left a task r.draws.0 r.fits_oracle fits_task r.answers.0 in
      let ended = λ (j : ℕ). turn-Ended_calm F U x a task rest j r.none_running popped calm in
      let (went, queue, none_running, _) = ended 0 in
      let world : SameWorld F U x (turn F U x a).0 =
        subst (λ y. SameWorld F U x y.0) (sym (turn-turn_with F U x a task rest popped))
          (turn_with-world left a task same) in
      (
        record {
          ready = record {
            none_running = none_running;
            fits = rw queue fits_rest;
            fits_oracle = subst (FitsOracle F U) (sym world.1) r.fits_oracle;
            draws =
                subst (λ l. All (λ (b : Attempt). InRange l b.draw) later) (sym world.0) r.draws.1;
            answers = r.answers.1;
          };
          queue = queue;
          recorded = λ j. (ended j).3;
        },
        went,
      )

  -- `y` has nothing left of the queue of `x`, and results of what `x` has results of and of each of
  -- these tasks.
  record Drained (x y : TaskExecutor F U) : Type 0 where
    empty : y.task_scheduler.priority_queue ≡ []
    recorded :
        (j : ℕ)
        → is_recorded y.task_scheduler j
          ≡ (any (has_id j) x.task_scheduler.priority_queue || is_recorded x.task_scheduler j)

  Drained-empty : (x : TaskExecutor F U) → x.task_scheduler.priority_queue ≡ [] → Drained x x
  unfolding any
  Drained-empty x e = record { empty = e; recorded = λ j. rw e refl }

  run_on-ran :
      (t : TaskExecutor F U × Turn) (f : TaskExecutor F U → TaskExecutor F U)
      → t.1 ≡ ran
      → run_on F U t f ≡ f t.0
  run_on-ran (y, idle) f e = cc
  run_on-ran (y, ran) f e = refl
  run_on-ran (y, crashed) f e = cc

  -- A turn, and what comes after it.
  Turned-Drained :
      (x y z : TaskExecutor F U) (task : ScheduledTask) (rest : List ScheduledTask)
      (later : List Attempt)
      → Heap.pop cmp x.task_scheduler.priority_queue ≡ some (task, rest)
      → Turned x y task rest later
      → Drained y z
      → Drained x z
  Turned-Drained x y z task rest later popped t d = record {
    empty = d.empty;
    recorded = λ j.
        rw (d.recorded j, t.recorded j, t.queue, Heap.any-pop cmp (has_id j) _ _ popped)
          (or_rotate (any (has_id j) rest) (task.id == j) (is_recorded x.task_scheduler j));
  }

  drains :
      (x : TaskExecutor F U) (attempts : List Attempt)
      → Ready x attempts
      → length x.task_scheduler.priority_queue ≤ length attempts
      → Drained x (run F U x attempts)
  unfolding run
  drains x [] r h = elim (List-cases x.task_scheduler.priority_queue) [
    | inl e ↦ Drained-empty x e
    | inr (t, rest, e) ↦ absurd (ground arith)
  ]
  drains x (a ∷ later) r h = elim (Option-cases (Heap.pop cmp x.task_scheduler.priority_queue)) [
    | inl none_left ↦
        let same_state : Ready x later = record {
          none_running = r.none_running;
          fits = r.fits;
          fits_oracle = r.fits_oracle;
          draws = r.draws.1;
          answers = r.answers.1;
        } in
        subst (λ t. Drained x (run_on F U t (λ y. run F U y later))) (sym (turn-idle x a none_left))
          (drains x later same_state (rw (Heap.pop-eq-none cmp _ none_left) (omega arith)))
    | inr ((task, rest), popped) ↦
        let (t, went) = turn-Turned x a later task rest r popped in
        let y : TaskExecutor F U = (turn F U x a).0 in
        let fewer : length y.task_scheduler.priority_queue ≤ length later =
          rw t.queue (omega (arith, Heap.length-pop cmp _ _ popped)) in
        subst (Drained x) (sym (run_on-ran (turn F U x a) (λ y. run F U y later) went)) (
          Turned-Drained x y (run F U y later) task rest later popped t
            (drains y later t.ready fewer))
  ]

  -- The loop drains the queue: from a state where nothing is in progress and no execution can panic,
  -- with at least as many turns as tasks wait, it leaves an empty queue and a recorded result for each
  -- of the tasks, beside the results that were there, whatever the chain answers. (The amounts of the
  -- requests, the prices of the oracle and the nonces and chain ids of the answers fit in 64 bits, and
  -- the draws of the generator are in their range.)
  pub run-drains :
      (x : TaskExecutor F U) (attempts : List Attempt) (j : ℕ)
      → Ready x attempts
      → length x.task_scheduler.priority_queue ≤ length attempts
      → ((run F U x attempts).task_scheduler.priority_queue ≡ [])
        × (is_recorded (run F U x attempts).task_scheduler j
            ≡ (any (has_id j) x.task_scheduler.priority_queue || is_recorded x.task_scheduler j))
  run-drains x attempts j r h = let d = drains x attempts r h in (d.empty, d.recorded j)
