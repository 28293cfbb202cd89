-- ===== src/Queue/Scheduler/Status.antt =====
-- What `get_task_status` answers after each operation (src/queue/scheduler.rs).
use express402_relayer.Common.{
  ◌%◌, leb, ◌+◌, ◌^◌, ◌<◌, All, All-take_first, ℕ, ◌≡◌, refl, Bool, true, false, not, ◌||◌, Option,
  none, some, List, Bool-cases, ◌==◌, ltb, if◌then◌else◌, String, any, retain, any-retain-not,
  any-retain_other, length-retain-not, take_first, take_first-some, contains_key,
  contains_key-insert, nat_eq, ==_iff, inl, inr, arith, Option-cases,
}
use express402_relayer.Types.Error.{Message}
use express402_relayer.Types.Transaction.{TransactionRequest}
use express402_relayer.Queue.Scheduler.{
  ScheduledTask, TaskScheduler, TaskStatus, pending, completed, failed, not_found, has_id,
  schedule_task, complete_task, requeue, retry_task, max_retries_exceeded, get_task_status,
  cancel_task, is_full,
}

-- What the two maps of results say of a task.
abbrev pub recorded : TaskScheduler → ℕ → TaskStatus
recorded s task_id =
    if contains_key task_id s.completed_tasks
    then completed
    else if contains_key task_id s.failed_tasks
    then failed
    else not_found

any-retain_id :
    (i j : ℕ) (xs : List ScheduledTask)
    → any (has_id j) (retain (λ t. not (has_id i t)) xs)
      ≡ (if i == j then false else any (has_id j) xs)
any-retain_id i j xs = elim (Bool-cases (i == j)) [
  | inl same ↦ rw (same, (==_iff i j).0 same) (any-retain-not (has_id j) xs)
  | inr other ↦
      rw other (any-retain_other (λ t. not (has_id i t)) (has_id j) xs (λ t h. ground arith))
]

-- A scheduled task is pending, whatever was known of it before.
schedule_task-pending :
    (s : TaskScheduler) (request : TransactionRequest) (t u : ℕ)
    → is_full s ≡ false
    → get_task_status (schedule_task s request t u).0 request.id ≡ pending
unfolding schedule_task get_task_status any
schedule_task-pending s request t u room = ground (arith, (==_iff request.id request.id).1 refl)

-- `complete_task` takes a task out of the processing queue and records it: a success reads as
-- completed and a failure as failed, unless a task of that id still waits in the priority queue, or
-- a failure follows a recorded success. Of every other task the status stays.
complete_task-status :
    (s : TaskScheduler) (i j : ℕ) (success : Bool) (hash : Option String) (e : Option Message)
    (t u v : ℕ)
    → get_task_status (complete_task s i success hash e t u v) j ≡ (
        if i == j
        then (if any (has_id j) s.priority_queue
            then pending
            else if success || contains_key j s.completed_tasks
            then completed
            else failed)
        else get_task_status s j)
unfolding complete_task get_task_status
complete_task-status s i j true hash e t u v =
    simp (contains_key-insert, any-retain_id) (ground arith)
complete_task-status s i j false hash e t u v =
    simp (contains_key-insert, any-retain_id) (ground arith)

-- `cancel_task` says whether the task was pending or processing. After it the task is neither, what
-- is recorded of it shows, and the status of every other task stays.
cancel_task-status :
    (s : TaskScheduler) (i j : ℕ)
    → ((cancel_task s i).1 ≡ (any (has_id i) s.priority_queue || any (has_id i) s.processing_queue))
      × (get_task_status (cancel_task s i).0 j
          ≡ (if i == j then recorded s j else get_task_status s j))
unfolding cancel_task get_task_status
cancel_task-status s i j = (
  ground (
    arith,
    length-retain-not (has_id i) s.priority_queue,
    length-retain-not (has_id i) s.processing_queue,
  ),
  ground (arith, any-retain_id i j s.priority_queue, any-retain_id i j s.processing_queue),
)

-- What `retry_task` makes of the task that it finds in the processing queue: pending again while it
-- has retries left, and otherwise what `complete_task` records of a failure.
abbrev pub retried : TaskScheduler → ℕ → Option (ScheduledTask × List ScheduledTask) → TaskStatus
retried s i none = get_task_status s i
retried s i (some (task, rest)) =
    if ltb task.retry_count task.max_retries || any (has_id i) s.priority_queue
    then pending
    else if contains_key i s.completed_tasks
    then completed
    else failed

requeue-status :
    (s : TaskScheduler) (i j : ℕ) (task : ScheduledTask) (rest : List ScheduledTask) (now t u v : ℕ)
    → take_first (has_id i) s.processing_queue ≡ some (task, rest)
    → task.retry_count + 1 < 2 ^ 32
    → get_task_status (requeue (record s { processing_queue = rest }) i task now t u v) j
      ≡ (if i == j then retried s i (some (task, rest)) else get_task_status s j)
unfolding requeue get_task_status any
requeue-status s i j task rest now t u v found small =
    let others = take_first-some (has_id i) (has_id j) s.processing_queue task rest found in
    elim (Bool-cases (leb ((task.retry_count + 1) % 2 ^ 32) task.max_retries)) [
      | inl left ↦ rw (left, requeue) (ground (arith, others))
      | inr spent ↦
          rw (spent, requeue)
            (ground (
              arith,
              others,
              complete_task-status (record s { processing_queue = rest }) i j false none
                  (some max_retries_exceeded) t u v,
            ))
    ]

-- `retry_task` on every branch: a task that is not processing stays as it was; one with retries left
-- is pending again, and one without reads as failed (or as completed or pending, where that is also
-- recorded of its id). Of every other task the status stays. No count of retries is at its limit.
retry_task-status :
    (s : TaskScheduler) (i j now t u v : ℕ)
    → All (λ task. task.retry_count + 1 < 2 ^ 32) s.processing_queue
    → get_task_status (retry_task s i now t u v) j ≡ (
        if i == j
        then retried s i (take_first (has_id i) s.processing_queue)
        else get_task_status s j)
unfolding retry_task
retry_task-status s i j now t u v small =
    elim (Option-cases (take_first (has_id i) s.processing_queue)) [
      | inl gone ↦ rw (gone, retry_task) (ground (arith, ==_iff i j))
      | inr (f, found) ↦
          let (few, _) = All-take_first _ (has_id i) s.processing_queue f.0 f.1 found small in
          rw (found, retry_task) (requeue-status s i j f.0 f.1 now t u v found few)
    ]
