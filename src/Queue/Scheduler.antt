-- ===== src/Queue/Scheduler.antt =====
-- src/queue/scheduler.rs: `TaskScheduler`. A method takes the state and returns the new one beside
-- its result. Each `Instant::now()` is an argument, in nanoseconds, and a test `t > now - d` is
-- written `now < t + d`, since an instant before the clock's zero can be represented. A call that
-- waits for the semaphore is modelled from the moment that the wait ends, with its outcome.
pub mod Order
mod Status
mod Invariant
pub mod Race
mod Tests
use mathlib.Core.Option
use express402_relayer.Common.{
  ℕ, suc, ◌+◌, ◌-◌, ◌*◌, ◌/◌, ◌%◌, ◌^◌, ◌≡◌, refl, Bool, true, false, not, ◌||◌, Option, none, some,
  List, [], ◌∷◌, ◌++◌, Ordering, compare, String, ltb, leb, ◌==◌, if◌then◌else◌, length, retain,
  any, take_first, Map, insert, contains_key, nat_eq, retain_values,
}
use express402_relayer.Types.Error.{Message, text, queue, Result, ok, err}
use express402_relayer.Types.Transaction.{TransactionRequest, weight}
use express402_relayer.Queue.Heap

pub record ScheduledTask : Type 0 where
  pub id : ℕ
  pub request : TransactionRequest
  pub priority : ℕ  -- u8
  pub created_at : ℕ
  pub scheduled_at : ℕ
  pub retry_count : ℕ  -- u32
  pub max_retries : ℕ  -- u32

unfoldable pub then_with : Ordering → Ordering → Ordering
then_with Ordering.lt o = Ordering.lt
then_with Ordering.eq o = o
then_with Ordering.gt o = Ordering.gt

-- `Ord::cmp` of `ScheduledTask`, with the operands in the source's order.
unfoldable pub cmp : ScheduledTask → ScheduledTask → Ordering
unfolding then_with
cmp self other =
    then_with (compare other.priority self.priority) (compare self.scheduled_at other.scheduled_at)

pub record TaskResult : Type 0 where
  pub id : ℕ
  pub success : Bool
  pub tx_hash : Option String
  pub error_message : Option Message
  pub processing_time : ℕ
  pub completed_at : ℕ

pub record TaskScheduler : Type 0 where
  pub priority_queue : List ScheduledTask
  pub processing_queue : List ScheduledTask
  pub completed_tasks : Map ℕ TaskResult
  pub failed_tasks : Map ℕ TaskResult
  pub permits : ℕ
  pub max_queue_size : ℕ
  pub processing_timeout : ℕ

pub data TaskStatus : Type 0 where
  pending processing completed failed not_found : TaskStatus

pub record QueueStats : Type 0 where
  pub pending_tasks : ℕ
  pub processing_tasks : ℕ
  pub completed_tasks : ℕ
  pub failed_tasks : ℕ
  pub available_permits : ℕ
  pub max_queue_size : ℕ
  pub processing_timeout_seconds : ℕ

-- `Duration::from_secs`, in nanoseconds.
abbrev pub from_secs : ℕ → ℕ
from_secs n = n * 1_000_000_000

-- The test of `retain(|task| task.id != task_id)`, before its negation.
abbrev pub has_id : ℕ → ScheduledTask → Bool
has_id task_id task = task.id == task_id

unfoldable pub new : ℕ → ℕ → ℕ → TaskScheduler
new max_concurrent max_queue_size processing_timeout = record {
  priority_queue = [];
  processing_queue = [];
  completed_tasks = [];
  failed_tasks = [];
  permits = max_concurrent;
  max_queue_size = max_queue_size;
  processing_timeout = processing_timeout;
}

-- The size check of `schedule_task`, under its read lock.
unfoldable pub is_full : TaskScheduler → Bool
is_full s = leb s.max_queue_size (length s.priority_queue)

-- The push of `schedule_task`, under its write lock.
unfoldable pub enqueue : TaskScheduler → TransactionRequest → ℕ → ℕ → TaskScheduler
unfolding weight Heap.push
enqueue s request created_at scheduled_at = record s {
  priority_queue = Heap.push cmp task s.priority_queue;
}
  where
    task : ScheduledTask
    task = record {
      id = request.id;
      request = request;
      priority = weight request.priority;
      created_at = created_at;
      scheduled_at = scheduled_at;
      retry_count = 0;
      max_retries = 3;
    }

unfoldable pub schedule_task : TaskScheduler → TransactionRequest → ℕ → ℕ → TaskScheduler × Result ℕ
unfolding is_full enqueue
schedule_task s request created_at scheduled_at =
    if is_full s
    then (s, err (queue (text "Queue is full" ∷ [])))
    else (enqueue s request created_at scheduled_at, ok request.id)

unfoldable pub get_next_task : TaskScheduler → TaskScheduler × Result (Option ScheduledTask)
get_next_task s = elim (Heap.pop cmp s.priority_queue) [
  | none ↦ (s, ok none)
  | some (task, rest) ↦ (record s { priority_queue = rest }, ok (some task))
]

-- `closed` is the error of a semaphore that has been closed. The permit is dropped on return.
unfoldable pub start_processing :
    TaskScheduler → Option Message → ScheduledTask → TaskScheduler × Result (Unit {0})
start_processing s (some closed) task = (s, err (queue closed))
start_processing s none task =
    (record s { processing_queue = s.processing_queue ++ task ∷ [] }, ok tt)

-- The processing time is the difference of two readings of the clock inside the call; `-` of two
-- instants stops at 0.
unfoldable pub complete_task :
    TaskScheduler → ℕ → Bool → Option String → Option Message → ℕ → ℕ → ℕ → TaskScheduler
complete_task s task_id success tx_hash error_message first second completed_at =
    if success
    then record s {
      completed_tasks = insert task_id result s.completed_tasks;
      processing_queue = retain (λ task. not (has_id task_id task)) s.processing_queue;
    }
    else record s {
      failed_tasks = insert task_id result s.failed_tasks;
      processing_queue = retain (λ task. not (has_id task_id task)) s.processing_queue;
    }
  where
    result : TaskResult
    result = record {
      id = task_id;
      success = success;
      tx_hash = tx_hash;
      error_message = error_message;
      processing_time = first - second;
      completed_at = completed_at;
    }

abbrev pub max_retries_exceeded : Message
max_retries_exceeded = text "Max retries exceeded" ∷ []

-- `retry_task` once the task has been taken out of the processing queue.
unfoldable pub requeue : TaskScheduler → ℕ → ScheduledTask → ℕ → ℕ → ℕ → ℕ → TaskScheduler
unfolding complete_task Heap.push
requeue s task_id task now first second completed_at =
    let retry_count : ℕ = (task.retry_count + 1) % 2 ^ 32 in
    let again : ScheduledTask = record task {
      retry_count = retry_count;
      scheduled_at = now + from_secs (5 * retry_count);
    } in
    if leb retry_count task.max_retries
    then record s { priority_queue = Heap.push cmp again s.priority_queue }
    else complete_task s task_id false none (some max_retries_exceeded) first second completed_at

unfoldable pub retry_task : TaskScheduler → ℕ → ℕ → ℕ → ℕ → ℕ → TaskScheduler
unfolding requeue take_first
retry_task s task_id now first second completed_at =
    elim (take_first (has_id task_id) s.processing_queue) [
      | none ↦ s
      | some (task, rest) ↦
          requeue (record s { processing_queue = rest }) task_id task now first second completed_at
    ]

unfoldable pub get_queue_stats : TaskScheduler → QueueStats
get_queue_stats s = record {
  pending_tasks = length s.priority_queue;
  processing_tasks = length s.processing_queue;
  completed_tasks = length s.completed_tasks;
  failed_tasks = length s.failed_tasks;
  available_permits = s.permits;
  max_queue_size = s.max_queue_size;
  processing_timeout_seconds = s.processing_timeout / 1_000_000_000;
}

unfoldable pub get_task_status : TaskScheduler → ℕ → TaskStatus
get_task_status s task_id =
    if any (has_id task_id) s.priority_queue
    then pending
    else if any (has_id task_id) s.processing_queue
    then processing
    else if contains_key task_id s.completed_tasks
    then completed
    else if contains_key task_id s.failed_tasks
    then failed
    else not_found

unfoldable pub cancel_task : TaskScheduler → ℕ → TaskScheduler × Bool
cancel_task s task_id =
    let waiting = retain (λ (task : ScheduledTask). not (has_id task_id task)) s.priority_queue in
    let running = retain (λ (task : ScheduledTask). not (has_id task_id task)) s.processing_queue in
    (
      record s { priority_queue = waiting; processing_queue = running },
      ltb (length waiting) (length s.priority_queue)
          || ltb (length running) (length s.processing_queue),
    )

-- The results, and how many were dropped.
unfoldable pub clear_completed_tasks : TaskScheduler → ℕ → ℕ → TaskScheduler × ℕ
clear_completed_tasks s older_than now =
    let kept = retain_values recent s.completed_tasks in
    let kept_failed = retain_values recent s.failed_tasks in
    (
      record s { completed_tasks = kept; failed_tasks = kept_failed },
      length s.completed_tasks - length kept + (length s.failed_tasks - length kept_failed),
    )
  where
    recent : TaskResult → Bool
    recent result = ltb now (result.completed_at + older_than)
