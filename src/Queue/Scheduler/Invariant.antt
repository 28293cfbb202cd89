-- ===== src/Queue/Scheduler/Invariant.antt =====
-- The calls on a scheduler as steps, in any order, and what holds of every scheduler that they reach
-- (src/queue/scheduler.rs).
use mathlib.Core.List.{Memᴰ}
use express402_relayer.Common.{
  ℕ, ◌+◌, ◌^◌, ◌%◌, ◌≤◌, ◌≡◌, Bool, true, false, Option, none, some, List, [], ◌∷◌, String, All,
  All-append, All-retain, All-memᴰ, All-take_first, Option-cases, Bool-cases, take_first, leb, inl,
  inr, arith,
}
use express402_relayer.Types.Error.{Message, ok}
use express402_relayer.Types.Transaction.{TransactionRequest, weight}
use express402_relayer.Queue.Heap
use express402_relayer.Queue.Scheduler.{
  ScheduledTask, TaskScheduler, cmp, has_id, new, is_full, enqueue, schedule_task, get_next_task,
  start_processing, complete_task, requeue, retry_task, cancel_task, clear_completed_tasks,
}
use express402_relayer.Queue.Scheduler.Order.{get_next_task-pop}

-- A scheduler, and the tasks that `get_next_task` has handed out so far.
pub record Machine : Type 0 where
  pub scheduler : TaskScheduler
  pub handed_out : List ScheduledTask

abbrev pub set_scheduler : Machine → TaskScheduler → Machine
set_scheduler m s = record m { scheduler = s }

-- One call. `start_processing` is given a task that was handed out.
pub data Step : Machine → Machine → Type 0 where
  schedules :
      (m : Machine) (request : TransactionRequest) (t u : ℕ)
      → Step m (set_scheduler m (schedule_task m.scheduler request t u).0)
  takes :
      (m : Machine) (s : TaskScheduler) (task : ScheduledTask)
      → get_next_task m.scheduler ≡ (s, ok (some task))
      → Step m (record { scheduler = s; handed_out = task ∷ m.handed_out })
  starts :
      (m : Machine) (closed : Option Message) (task : ScheduledTask)
      → Memᴰ task m.handed_out
      → Step m (set_scheduler m (start_processing m.scheduler closed task).0)
  completes :
      (m : Machine) (i : ℕ) (success : Bool) (hash : Option String) (e : Option Message) (t u v : ℕ)
      → Step m (set_scheduler m (complete_task m.scheduler i success hash e t u v))
  retries :
      (m : Machine) (i now t u v : ℕ)
      → Step m (set_scheduler m (retry_task m.scheduler i now t u v))
  cancels : (m : Machine) (i : ℕ) → Step m (set_scheduler m (cancel_task m.scheduler i).0)
  clears :
      (m : Machine) (older_than now : ℕ)
      → Step m (set_scheduler m (clear_completed_tasks m.scheduler older_than now).0)

pub data Reach (m : Machine) : Machine → Type 0 where
  here : Reach m m
  next : {n o : Machine} → Reach m n → Step n o → Reach m o

-- A task is the wrapping of its request, with at most three retries behind it.
pub record IsScheduled (task : ScheduledTask) : Type 0 where
  pub same_id : task.id ≡ task.request.id
  pub weighted : task.priority ≡ weight task.request.priority
  pub three : task.max_retries ≡ 3
  pub few : task.retry_count ≤ task.max_retries

pub record Inv (m : Machine) : Type 0 where
  pub waiting : All IsScheduled m.scheduler.priority_queue
  pub running : All IsScheduled m.scheduler.processing_queue
  pub handed : All IsScheduled m.handed_out

again-IsScheduled :
    (task : ScheduledTask) (q t : ℕ)
    → IsScheduled task
    → leb q task.max_retries ≡ true
    → IsScheduled (record task { retry_count = q; scheduled_at = t })
again-IsScheduled task q t h left = ground arith

requeue-Inv :
    (s : TaskScheduler) (i now t u v : ℕ) (task : ScheduledTask)
    → IsScheduled task
    → All IsScheduled s.priority_queue
    → All IsScheduled s.processing_queue
    → All IsScheduled (requeue s i task now t u v).priority_queue
      × All IsScheduled (requeue s i task now t u v).processing_queue
unfolding requeue
requeue-Inv s i now t u v task h w r =
    elim (Bool-cases (leb ((task.retry_count + 1) % 2 ^ 32) task.max_retries)) [
      | inl left ↦ rw (left, requeue) ((again-IsScheduled task _ _ h left, w), r)
      | inr spent ↦ rw (spent, requeue) (w, All-retain IsScheduled _ _ r)
    ]

abbrev QueuesOf : TaskScheduler → Type 0
QueuesOf s = All IsScheduled s.priority_queue × All IsScheduled s.processing_queue

-- The task of a fresh request.
enqueue-Inv :
    (s : TaskScheduler) (request : TransactionRequest) (t u : ℕ)
    → QueuesOf s
    → QueuesOf (enqueue s request t u)
unfolding enqueue
enqueue-Inv s request t u (w, r) = ((ground arith, w), r)

complete_task-Inv :
    (s : TaskScheduler) (i : ℕ) (success : Bool) (hash : Option String) (e : Option Message)
    (t u v : ℕ)
    → QueuesOf s
    → QueuesOf (complete_task s i success hash e t u v)
unfolding complete_task
complete_task-Inv s i true hash e t u v (w, r) = (w, All-retain IsScheduled _ _ r)
complete_task-Inv s i false hash e t u v (w, r) = (w, All-retain IsScheduled _ _ r)

retry_task-Inv :
    (s : TaskScheduler) (i now t u v : ℕ) → QueuesOf s → QueuesOf (retry_task s i now t u v)
unfolding retry_task
retry_task-Inv s i now t u v (w, r) =
    elim (Option-cases (take_first (has_id i) s.processing_queue)) [
      | inl gone ↦ rw (gone, retry_task) (w, r)
      | inr (f, found) ↦
          let (h, rest) = All-take_first IsScheduled (has_id i) _ f.0 f.1 found r in
          rw (found, retry_task) (requeue-Inv _ i now t u v f.0 h w rest)
    ]

schedule_task-Inv :
    (s : TaskScheduler) (request : TransactionRequest) (t u : ℕ)
    → QueuesOf s
    → QueuesOf (schedule_task s request t u).0
unfolding schedule_task
schedule_task-Inv s request t u h = elim (Bool-cases (is_full s)) [
  | inl full ↦ rw (full, schedule_task) h
  | inr room ↦ rw (room, schedule_task) (enqueue-Inv s request t u h)
]

start_processing-waiting :
    (s : TaskScheduler) (closed : Option Message) (task : ScheduledTask)
    → All IsScheduled s.priority_queue
    → All IsScheduled (start_processing s closed task).0.priority_queue
unfolding start_processing
start_processing-waiting s none task w = w
start_processing-waiting s (some e) task w = w

start_processing-running :
    (s : TaskScheduler) (closed : Option Message) (task : ScheduledTask)
    → All IsScheduled s.processing_queue
    → IsScheduled task
    → All IsScheduled (start_processing s closed task).0.processing_queue
unfolding start_processing
start_processing-running s none task r h = All-append IsScheduled _ (task ∷ []) r (h, tt)
start_processing-running s (some e) task r h = r

Step-Inv : {m n : Machine} → Step m n → Inv m → Inv n
unfolding cancel_task clear_completed_tasks
Step-Inv (schedules m request t u) v =
    let queues = schedule_task-Inv m.scheduler request t u (v.waiting, v.running) in
    record { waiting = queues.0; running = queues.1; handed = v.handed }
Step-Inv (takes m s task e) v =
    let (popped, same) = get_next_task-pop m.scheduler s task e in
    let (h, rest) = Heap.All-pop cmp IsScheduled _ _ popped v.waiting in
    record { waiting = rest; running = rw same v.running; handed = (h, v.handed) }
Step-Inv (starts m closed task held) v = record {
  waiting = start_processing-waiting m.scheduler closed task v.waiting;
  running =
      start_processing-running m.scheduler closed task v.running
        (All-memᴰ IsScheduled _ task held v.handed);
  handed = v.handed;
}
Step-Inv (completes m i success hash e t u w) v =
    let queues = complete_task-Inv m.scheduler i success hash e t u w (v.waiting, v.running) in
    record { waiting = queues.0; running = queues.1; handed = v.handed }
Step-Inv (retries m i now t u w) v =
    let queues = retry_task-Inv m.scheduler i now t u w (v.waiting, v.running) in
    record { waiting = queues.0; running = queues.1; handed = v.handed }
Step-Inv (cancels m i) v = record {
  waiting = All-retain IsScheduled _ _ v.waiting;
  running = All-retain IsScheduled _ _ v.running;
  handed = v.handed;
}
Step-Inv (clears m older_than now) v = record {
  waiting = v.waiting;
  running = v.running;
  handed = v.handed;
}

abbrev pub idle : ℕ → ℕ → ℕ → Machine
idle max_concurrent max_queue_size timeout = record {
  scheduler = new max_concurrent max_queue_size timeout;
  handed_out = [];
}

idle-Inv : (c q t : ℕ) → Inv (idle c q t)
unfolding new
idle-Inv c q t = record { waiting = tt; running = tt; handed = tt }

-- Whatever calls are made on a new scheduler, in whatever order, each task in a queue or handed out
-- carries the identifier of its request and the weight of its priority, and has been retried at most
-- three times.
pub Reach-Inv : (c q t : ℕ) {m : Machine} → Reach (idle c q t) m → Inv m
Reach-Inv c q t here = idle-Inv c q t
Reach-Inv c q t (next r st) = Step-Inv st (Reach-Inv c q t r)
