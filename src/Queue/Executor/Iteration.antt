-- ===== src/Queue/Executor/Iteration.antt =====
-- One turn of the execution loop (src/queue/executor.rs). The loop never calls `start_processing`, so
-- the processing queue is empty when it asks for a retry.
use express402_relayer.Common.{
  ◌==◌, ◌||◌, ℕ, ◌≡◌, ◌≢◌, refl, sym, ap, subst, ◌∙◌, ◌⊎◌, inl, inr, Bool, true, false, ◌||◌,
  Option, none, some, List, [], String, if◌then◌else◌, contains_key, contains_key-insert, nat_eq,
  retain, take_first, arith,
}
use express402_relayer.Common.Float.{F64}
use express402_relayer.Common.Uint.{Uint}
use express402_relayer.Types.Error.{Message, Result, ok, err, panic, display}
use express402_relayer.Types.Wallet.{WalletInfo}
use express402_relayer.Queue.Heap
use express402_relayer.Queue.Scheduler.{
  ScheduledTask, TaskScheduler, cmp, get_next_task, complete_task, retry_task, has_id,
}
use express402_relayer.Queue.Executor.{
  TaskExecutor, Attempt, ExecutionResult, execute_task, execute_transaction, with_wallet, settle,
  Turn, ran, crashed, retry_if_left, conclude, turn_with, turn_of, turn,
}

-- A result of the task is kept.
abbrev pub is_recorded : TaskScheduler → ℕ → Bool
is_recorded s i = contains_key i s.completed_tasks || contains_key i s.failed_tasks

-- `t` is `s` after the task `i` has ended, with nothing in progress.
pub record Ended (s t : TaskScheduler) (i : ℕ) : Type 0 where
  pub same_queue : t.priority_queue ≡ s.priority_queue
  pub none_running : t.processing_queue ≡ []
  pub recorded : (j : ℕ) → is_recorded t j ≡ (i == j || is_recorded s j)

complete_task-Ended :
    (s : TaskScheduler) (i : ℕ) (success : Bool) (hash : Option String) (e : Option Message)
    (t u v : ℕ)
    → s.processing_queue ≡ []
    → Ended s (complete_task s i success hash e t u v) i
unfolding complete_task retain
complete_task-Ended s i true hash e t u v idle_now = record {
  same_queue = refl;
  none_running = rw idle_now;
  recorded = λ j. simp contains_key-insert (ground arith);
}
complete_task-Ended s i false hash e t u v idle_now = record {
  same_queue = refl;
  none_running = rw idle_now;
  recorded = λ j. simp contains_key-insert (ground arith);
}

-- With nothing in the processing queue a retry finds no task, and changes nothing.
retry_if_left-idle :
    (s : TaskScheduler) (a : Attempt) (task : ScheduledTask)
    → s.processing_queue ≡ []
    → retry_if_left s a task ≡ s
unfolding retry_if_left retry_task take_first
retry_if_left-idle s a task idle_now =
    let nothing : (i : ℕ) → take_first (has_id i) s.processing_queue ≡ none =
      λ i. rw idle_now refl in
    ground (arith, nothing task.id)

panic-cases : (r : Result ExecutionResult) → (r ≢ panic) ⊎ (r ≡ panic)
panic-cases (ok q) = inl (λ e. cc)
panic-cases (err x) = inl (λ e. cc)
panic-cases panic = inr refl

either : (x y : TaskScheduler) (b : Bool) → x ≡ y → x ≡ (if b then x else y)
either x y b e = ground arith

conclude-Ended :
    (s : TaskScheduler) (a : Attempt) (task : ScheduledTask) (r : Result ExecutionResult)
    → s.processing_queue ≡ []
    → ((q : ExecutionResult) → r ≡ ok q → q.task_id ≡ task.id)
    → r ≢ panic
    → Ended s (conclude s a task r).0 task.id × ((conclude s a task r).1 ≡ ran)
unfolding conclude
conclude-Ended s a task (ok q) idle_now same_id no_panic =
    let done : TaskScheduler =
      complete_task s q.task_id q.success q.tx_hash q.error_message (a.clock 7) (a.clock 8)
        (a.clock 9) in
    let ended : Ended s done task.id = subst (Ended s done) (same_id q refl) (
      complete_task-Ended s q.task_id q.success q.tx_hash q.error_message (a.clock 7) (a.clock 8)
        (a.clock 9) idle_now) in
    (
      subst (λ t. Ended s t task.id)
          (either done _ q.success (sym (retry_if_left-idle done a task ended.none_running))) ended,
      refl,
    )
conclude-Ended s a task (err e) idle_now same_id no_panic =
    let done : TaskScheduler =
      complete_task s task.id false none (some (display e)) (a.clock 7) (a.clock 8) (a.clock 9) in
    let ended : Ended s done task.id =
      complete_task-Ended s task.id false none (some (display e)) (a.clock 7) (a.clock 8)
        (a.clock 9) idle_now in
    (
      subst (λ t. Ended s t task.id) (sym (retry_if_left-idle done a task ended.none_running))
          ended,
      refl,
    )
conclude-Ended s a task panic idle_now same_id no_panic = absurd (no_panic refl)

module _ (F : F64) (U : Uint) where
  -- `execute_task` leaves the scheduler alone, and names the task in its result.
  settle-task :
      (x : TaskExecutor F U) (a : Attempt) (i address : ℕ) (r : Result String)
      → ((settle F U x a i address r).0.task_scheduler ≡ x.task_scheduler)
        × ((q : ExecutionResult) → (settle F U x a i address r).1 ≡ ok q → q.task_id ≡ i)
  unfolding settle
  settle-task x a i address (ok hash) = (refl, λ q e. ground arith)
  settle-task x a i address (err e) = (refl, λ q e. ground arith)
  settle-task x a i address panic = (refl, λ q e. cc)

  with_wallet-task :
      (x : TaskExecutor F U) (a : Attempt) (task : ScheduledTask)
      (w : Result (Option (WalletInfo F)))
      → ((with_wallet F U x a task w).0.task_scheduler ≡ x.task_scheduler)
        × ((q : ExecutionResult) → (with_wallet F U x a task w).1 ≡ ok q → q.task_id ≡ task.id)
  unfolding with_wallet
  with_wallet-task x a task (ok none) = (refl, λ q e. ground arith)
  with_wallet-task x a task (ok (some w)) =
      settle-task x a task.id w.address
        (execute_transaction F U x.gas_price_oracle a task.request w)
  with_wallet-task x a task (err e) = (refl, λ q e. cc)
  with_wallet-task x a task panic = (refl, λ q e. cc)

  execute_task-task :
      (x : TaskExecutor F U) (a : Attempt) (task : ScheduledTask)
      → ((execute_task F U x a task).0.task_scheduler ≡ x.task_scheduler)
        × ((q : ExecutionResult) → (execute_task F U x a task).1 ≡ ok q → q.task_id ≡ task.id)
  unfolding execute_task
  execute_task-task x a task = with_wallet-task _ a task _

  turn_with-Ended :
      (x : TaskExecutor F U) (a : Attempt) (task : ScheduledTask)
      → x.task_scheduler.processing_queue ≡ []
      → (execute_task F U x a task).1 ≢ panic
      → Ended x.task_scheduler (turn_with F U x a task).0.task_scheduler task.id
        × ((turn_with F U x a task).1 ≡ ran)
  unfolding turn_with
  turn_with-Ended x a task idle_now no_panic =
      let (same, named) = execute_task-task x a task in
      subst
        (λ s.
          Ended s (turn_with F U x a task).0.task_scheduler task.id
          × ((turn_with F U x a task).1 ≡ ran))
        same
        (conclude-Ended _ a task _ (ap (λ (s : TaskScheduler). s.processing_queue) same ∙ idle_now)
          named no_panic)

  pub turn-turn_with :
      (x : TaskExecutor F U) (a : Attempt) (task : ScheduledTask) (rest : List ScheduledTask)
      → Heap.pop cmp x.task_scheduler.priority_queue ≡ some (task, rest)
      → turn F U x a
        ≡ turn_with F U
            (record x { task_scheduler = record x.task_scheduler { priority_queue = rest } })
            a
            task
  unfolding turn turn_of get_next_task
  turn-turn_with x a task rest popped = ground arith

  -- A turn that takes a task, with nothing in progress, and whose execution does not panic.
  pub turn-Ended_calm :
      (x : TaskExecutor F U) (a : Attempt) (task : ScheduledTask) (rest : List ScheduledTask)
      (j : ℕ)
      → x.task_scheduler.processing_queue ≡ []
      → Heap.pop cmp x.task_scheduler.priority_queue ≡ some (task, rest)
      → (execute_task F U
          (record x { task_scheduler = record x.task_scheduler { priority_queue = rest } })
          a
          task).1
        ≢ panic
      → ((turn F U x a).1 ≡ ran)
        × ((turn F U x a).0.task_scheduler.priority_queue ≡ rest)
        × ((turn F U x a).0.task_scheduler.processing_queue ≡ [])
        × (is_recorded (turn F U x a).0.task_scheduler j
            ≡ (task.id == j || is_recorded x.task_scheduler j))
  turn-Ended_calm x a task rest j idle_now popped no_panic =
      let (ended, went) =
        turn_with-Ended
          (record x { task_scheduler = record x.task_scheduler { priority_queue = rest } }) a task
          idle_now no_panic in
      subst
        (λ (f : TaskExecutor F U × Turn).
          (f.1 ≡ ran)
          × (f.0.task_scheduler.priority_queue ≡ rest)
          × (f.0.task_scheduler.processing_queue ≡ [])
          × (is_recorded f.0.task_scheduler j ≡ (task.id == j || is_recorded x.task_scheduler j)))
        (sym (turn-turn_with x a task rest popped))
        (went, ended.same_queue, ended.none_running, ended.recorded j)

  -- A panic of the execution ends the loop before anything is recorded.
  turn_with-crashed :
      (x : TaskExecutor F U) (a : Attempt) (task : ScheduledTask)
      → (execute_task F U x a task).1 ≡ panic
      → ((turn_with F U x a task).1 ≡ crashed)
        × ((turn_with F U x a task).0.task_scheduler ≡ x.task_scheduler)
  unfolding turn_with conclude
  turn_with-crashed x a task panics =
      let left : TaskScheduler = (execute_task F U x a task).0.task_scheduler in
      (
        ap (λ (r : Result ExecutionResult). (conclude left a task r).1) panics,
        ap (λ (r : Result ExecutionResult). (conclude left a task r).0) panics
            ∙ (execute_task-task x a task).0,
      )

  turn-crashed :
      (x : TaskExecutor F U) (a : Attempt) (task : ScheduledTask) (rest : List ScheduledTask)
      → Heap.pop cmp x.task_scheduler.priority_queue ≡ some (task, rest)
      → (execute_task F U
          (record x { task_scheduler = record x.task_scheduler { priority_queue = rest } })
          a
          task).1
        ≡ panic
      → ((turn F U x a).1 ≡ crashed)
        × ((turn F U x a).0.task_scheduler ≡ record x.task_scheduler { priority_queue = rest })
  turn-crashed x a task rest popped panics =
      subst
        (λ (f : TaskExecutor F U × Turn).
          (f.1 ≡ crashed)
          × (f.0.task_scheduler ≡ record x.task_scheduler { priority_queue = rest }))
        (sym (turn-turn_with x a task rest popped))
        (turn_with-crashed
          (record x { task_scheduler = record x.task_scheduler { priority_queue = rest } }) a task
          panics)

  -- A turn of the execution loop that takes a task from the scheduler, with nothing in progress, takes it
  -- out of the queue for good: the other tasks stay there, no task is added, and nothing is in progress
  -- afterwards. Either the execution of the task does not panic, and then the identifiers with a recorded
  -- result are those of before and that of the task, whatever came of its transaction and whatever
  -- retries it has left; or it panics, and then the turn does too, and the identifiers with a recorded
  -- result are those of before.
  pub turn-Ended :
      (x : TaskExecutor F U) (a : Attempt) (task : ScheduledTask) (rest : List ScheduledTask)
      → x.task_scheduler.processing_queue ≡ []
      → Heap.pop cmp x.task_scheduler.priority_queue ≡ some (task, rest)
      → ((turn F U x a).0.task_scheduler.priority_queue ≡ rest)
        × ((turn F U x a).0.task_scheduler.processing_queue ≡ [])
        × ((((execute_task F U
                  (record x { task_scheduler = record x.task_scheduler { priority_queue = rest } })
                  a
                  task).1
                ≢ panic)
              × ((turn F U x a).1 ≡ ran)
              × ((j : ℕ)
                  → is_recorded (turn F U x a).0.task_scheduler j
                    ≡ (task.id == j || is_recorded x.task_scheduler j)))
            ⊎ (((execute_task F U
                    (record x {
                      task_scheduler = record x.task_scheduler { priority_queue = rest };
                    })
                    a
                    task).1
                  ≡ panic)
                × ((turn F U x a).1 ≡ crashed)
                × ((j : ℕ)
                    → is_recorded (turn F U x a).0.task_scheduler j
                      ≡ is_recorded x.task_scheduler j)))
  turn-Ended x a task rest idle_now popped =
      elim (panic-cases
        (execute_task F U
          (record x { task_scheduler = record x.task_scheduler { priority_queue = rest } }) a
          task).1) [
            | inl calm ↦
                let ended = λ (j : ℕ). turn-Ended_calm x a task rest j idle_now popped calm in
                let (went, queue, none_running, _) = ended 0 in
                (queue, none_running, inl (calm, went, λ j. (ended j).3))
            | inr panics ↦
                let (went, left) = turn-crashed x a task rest popped panics in
                (
                  ap (λ (s : TaskScheduler). s.priority_queue) left,
                  ap (λ (s : TaskScheduler). s.processing_queue) left ∙ idle_now,
                  inr (panics, went, λ j. ap (λ (s : TaskScheduler). is_recorded s j) left),
                )
          ]
