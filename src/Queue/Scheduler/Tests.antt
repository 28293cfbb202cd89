-- ===== src/Queue/Scheduler/Tests.antt =====
-- The theorems about the scheduler at concrete queues (src/queue/scheduler.rs).
use express402_relayer.Common.{
  nat_eq, ◌+◌, ◌<◌, ◌≡◌, refl, false, some, [], ◌∷◌, Perm, All, length, arith,
}
use express402_relayer.Types.Error.{ok}
use express402_relayer.Types.Transaction.{low, high, critical}
use express402_relayer.Types.Samples.{request}
use express402_relayer.Queue.Heap
use express402_relayer.Queue.Scheduler.{
  ScheduledTask, TaskScheduler, cmp, new, is_full, schedule_task, get_next_task,
}
use express402_relayer.Queue.Scheduler.Order.{After, get_next_task-After}
use express402_relayer.Queue.Scheduler.Invariant
use express402_relayer.Queue.Scheduler.Race

abbrev waiting_task : ScheduledTask
waiting_task = record {
  id = 1;
  request = request 1 low;
  priority = 1;
  created_at = 10;
  scheduled_at = 10;
  retry_count = 0;
  max_retries = 3;
}

abbrev urgent_task : ScheduledTask
urgent_task = record {
  id = 2;
  request = request 2 critical;
  priority = 4;
  created_at = 20;
  scheduled_at = 20;
  retry_count = 0;
  max_retries = 3;
}

abbrev empty : TaskScheduler
empty = record {
  priority_queue = [];
  processing_queue = [];
  completed_tasks = [];
  failed_tasks = [];
  permits = 4;
  max_queue_size = 2;
  processing_timeout = 60;
}

-- Two tasks that wait.
abbrev two_waiting : TaskScheduler
two_waiting = record empty { priority_queue = urgent_task ∷ waiting_task ∷ [] }

-- The same after the first task has been taken.
abbrev one_waiting : TaskScheduler
one_waiting = record empty { priority_queue = urgent_task ∷ [] }

-- A task that is being processed.
abbrev one_running : TaskScheduler
one_running = record empty { processing_queue = waiting_task ∷ [] }

takes_low : get_next_task two_waiting ≡ (one_waiting, ok (some waiting_task))
unfolding get_next_task cmp Heap.pop Heap.prefer
takes_low = refl

get_next_task-After_example :
    Perm two_waiting.priority_queue (waiting_task ∷ one_waiting.priority_queue)
    × All (After waiting_task) one_waiting.priority_queue
    × (one_waiting ≡ record two_waiting { priority_queue = one_waiting.priority_queue })
get_next_task-After_example = get_next_task-After two_waiting one_waiting waiting_task takes_low

not_full : is_full one_waiting ≡ false
unfolding is_full
not_full = refl

Reach-Inv_example : Invariant.Inv (
    Invariant.set_scheduler
      (Invariant.idle 4 2 60)
      (schedule_task (new 4 2 60) (request 3 high) 1 2).0)
Reach-Inv_example =
    Invariant.Reach-Inv 4 2 60
      (Invariant.next Invariant.here (Invariant.schedules _ (request 3 high) 1 2))

abbrev two_callers : Race.Callers
two_callers = record { scheduler = one_waiting; before = 2; between = [] }

passes_once :
    Race.Reach two_callers (record two_callers { before = 1; between = request 3 high ∷ [] })
passes_once = Race.next Race.here (Race.passes two_callers 1 (request 3 high) refl not_full)

Reach-length_example : length one_waiting.priority_queue < 2 + 2
Reach-length_example = Race.Reach-length 2 2 refl (omega arith) refl refl (omega arith) passes_once

overshoot_example :
    (d : Race.Callers) × Race.Reach two_callers d
    × (length d.scheduler.priority_queue ≡ length one_waiting.priority_queue + 2)
overshoot_example = Race.overshoot 2 two_callers (request 3 high) not_full refl refl
