-- ===== src/Queue/Concurrency.antt =====
-- src/queue/concurrency.rs: `ConcurrencyController`. The semaphore is the number of its free permits: a
-- caller waits while it is 0, and a permit that is dropped goes back to the semaphore it was taken from.
-- `as_secs_f64` is the conversion of a duration. Queue/Concurrency/Steps has the interleavings of the
-- callers.
mod Grants
mod Steps
mod Overshoot
mod Tests
use express402_relayer.Common.{
  ℕ, zero, suc, ◌+◌, ◌*◌, ◌/◌, Bool, true, false, not, ◌||◌, Option, none, some, List, [], ◌∷◌,
  ◌++◌, ltb, leb, ◌==◌, if◌then◌else◌, length, retain, count_if, Map, lookup, insert, nat_eq,
}
use express402_relayer.Common.Float.{F64}
use express402_relayer.Types.Error.{Message, text, queue, Result, ok, err, panic}
use express402_relayer.Types.Wallet.{u64}

module _ (F : F64) where
  open F use {Carrier, of_u64, decimal, add, div, lt}

  pub record ResourceUsage : Type 0 where
    pub cpu_usage : Carrier
    pub memory_usage : Carrier
    pub network_usage : Carrier
    pub estimated_duration : ℕ

  pub record ActiveTask : Type 0 where
    pub id : ℕ
    pub started_at : ℕ
    pub timeout_at : ℕ
    pub priority : ℕ
    pub resource_usage : ResourceUsage

  pub record ConcurrencyLimits : Type 0 where
    pub max_concurrent_tasks : ℕ
    pub max_cpu_usage : Carrier
    pub max_memory_usage : Carrier
    pub max_network_usage : Carrier
    pub task_timeout : ℕ

  pub record ConcurrencyController : Type 0 where
    pub available_permits : ℕ
    pub active_tasks : List ActiveTask
    pub max_concurrent : ℕ
    pub max_queue_size : ℕ
    pub task_timeout : ℕ

  unfoldable pub default_limits : ConcurrencyLimits
  default_limits = record {
    max_concurrent_tasks = 10;
    max_cpu_usage = decimal 80 0;
    max_memory_usage = decimal 80 0;
    max_network_usage = decimal 80 0;
    task_timeout = 300_000_000_000;
  }

  unfoldable pub new : ConcurrencyLimits → ConcurrencyController
  new limits = record {
    available_permits = limits.max_concurrent_tasks;
    active_tasks = [];
    max_concurrent = limits.max_concurrent_tasks;
    max_queue_size = u64 (limits.max_concurrent_tasks * 2);
    task_timeout = limits.task_timeout;
  }

  -- `semaphore.acquire()`, which waits while no permit is free (`none`).
  unfoldable pub take_permit : ConcurrencyController → Option ConcurrencyController
  take_permit c = elim c.available_permits [
    | zero ↦ none
    | suc left ↦ some (record c { available_permits = left })
  ]

  unfoldable pub drop_permit : ConcurrencyController → ConcurrencyController
  drop_permit c = record c { available_permits = suc c.available_permits }

  -- `iter().map(...).sum::<f64>()`.
  unfoldable pub sum_from : (ActiveTask → Carrier) → Carrier → List ActiveTask → Carrier
  sum_from usage acc [] = acc
  sum_from usage acc (t ∷ rest) = sum_from usage (add acc (usage t)) rest

  abbrev pub cpu : ActiveTask → Carrier
  cpu t = t.resource_usage.cpu_usage

  abbrev pub memory : ActiveTask → Carrier
  memory t = t.resource_usage.memory_usage

  abbrev pub network : ActiveTask → Carrier
  network t = t.resource_usage.network_usage

  unfoldable pub total : (ActiveTask → Carrier) → ConcurrencyController → Carrier
  unfolding sum_from
  total usage c = sum_from usage (decimal 0 0) c.active_tasks

  unfoldable pub check_resource_limits : ConcurrencyController → ResourceUsage → Bool
  unfolding total
  check_resource_limits c u = not (
      lt (decimal 100 0) (add (total cpu c) u.cpu_usage)
      || (lt (decimal 100 0) (add (total memory c) u.memory_usage)
          || lt (decimal 100 0) (add (total network c) u.network_usage)))

  unfoldable pub make_task : ConcurrencyController → ℕ → ℕ → ResourceUsage → ℕ → ℕ → ActiveTask
  make_task c task_id priority u now now' = record {
    id = task_id;
    started_at = now;
    timeout_at = now' + c.task_timeout;
    priority = priority;
    resource_usage = u;
  }

  unfoldable pub register : ConcurrencyController → ActiveTask → ConcurrencyController
  register c t = record c { active_tasks = c.active_tasks ++ t ∷ [] }

  -- The part of `acquire_permit` after a permit has been taken, where no other call comes in between: the
  -- task is registered, or the permit goes back.
  unfoldable pub with_permit :
      ConcurrencyController
      → ℕ
      → ℕ
      → ResourceUsage
      → ℕ
      → ℕ
      → ConcurrencyController × Result ActiveTask
  unfolding drop_permit check_resource_limits make_task register
  with_permit c task_id priority u now now' =
      if not (check_resource_limits c u)
      then (drop_permit c, err (queue (text "Resource limits exceeded" ∷ [])))
      else (
        register c (make_task c task_id priority u now now'),
        ok (make_task c task_id priority u now now'),
      )

  unfoldable pub acquire_permit :
      ConcurrencyController
      → ℕ
      → ℕ
      → ResourceUsage
      → ℕ
      → ℕ
      → Option (ConcurrencyController × Result ActiveTask)
  unfolding with_permit
  acquire_permit c task_id priority u now now' = elim (take_permit c) [
    | none ↦ none
    | some c' ↦ some (with_permit c' task_id priority u now now')
  ]

  unfoldable pub release_permit : ConcurrencyController → ℕ → ConcurrencyController
  release_permit c task_id = record c {
    active_tasks = retain (λ (t : ActiveTask). not (t.id == task_id)) c.active_tasks;
  }

  unfoldable pub cleanup_expired_tasks : ConcurrencyController → ℕ → ConcurrencyController × ℕ
  cleanup_expired_tasks c now = (
    record c {
      active_tasks = retain (λ (t : ActiveTask). not (leb t.timeout_at now)) c.active_tasks;
    },
    count_if (λ (t : ActiveTask). leb t.timeout_at now) c.active_tasks,
  )

  abbrev pub or_zero : Option ℕ → ℕ
  or_zero none = 0
  or_zero (some n) = n

  -- `*distribution.entry(task.priority).or_insert(0) += 1` for each task.
  unfoldable pub count_priorities : Map ℕ ℕ → List ActiveTask → Map ℕ ℕ
  count_priorities m [] = m
  count_priorities m (t ∷ rest) =
      count_priorities (insert t.priority (u64 (or_zero (lookup t.priority m) + 1)) m) rest

  pub record PriorityDistribution : Type 0 where
    pub distribution : Map ℕ ℕ
    pub total_tasks : ℕ

  unfoldable pub get_task_priority_distribution : ConcurrencyController → PriorityDistribution
  unfolding count_priorities
  get_task_priority_distribution c = record {
    distribution = count_priorities [] c.active_tasks;
    total_tasks = length c.active_tasks;
  }

  unfoldable pub adjust_concurrency_limits :
      ConcurrencyController → ConcurrencyLimits → ConcurrencyController
  adjust_concurrency_limits c limits = record c {
    available_permits = limits.max_concurrent_tasks;
    max_concurrent = limits.max_concurrent_tasks;
    max_queue_size = u64 (limits.max_concurrent_tasks * 2);
    task_timeout = limits.task_timeout;
  }

  pub record ResourceUtilization : Type 0 where
    pub cpu_utilization : Carrier
    pub memory_utilization : Carrier
    pub network_utilization : Carrier
    pub active_task_count : ℕ
    pub utilization_timestamp : ℕ

  unfoldable pub get_resource_utilization : ConcurrencyController → ℕ → ResourceUtilization
  unfolding total
  get_resource_utilization c now = record {
    cpu_utilization = total cpu c;
    memory_utilization = total memory c;
    network_utilization = total network c;
    active_task_count = length c.active_tasks;
    utilization_timestamp = now;
  }

  unfoldable pub sum_durations : List ActiveTask → ℕ
  sum_durations [] = 0
  sum_durations (t ∷ rest) = t.resource_usage.estimated_duration + sum_durations rest

  pub record ConcurrencyStats : Type 0 where
    pub active_tasks : ℕ
    pub available_permits : ℕ
    pub max_concurrent : ℕ
    pub total_cpu_usage : Carrier
    pub total_memory_usage : Carrier
    pub total_network_usage : Carrier
    pub average_task_duration : Carrier
    pub task_timeout_seconds : ℕ

  unfoldable pub get_concurrency_stats : (ℕ → Carrier) → ConcurrencyController → ConcurrencyStats
  unfolding total sum_durations
  get_concurrency_stats as_secs_f64 c = record {
    active_tasks = length c.active_tasks;
    available_permits = c.available_permits;
    max_concurrent = c.max_concurrent;
    total_cpu_usage = total cpu c;
    total_memory_usage = total memory c;
    total_network_usage = total network c;
    average_task_duration =
        if length c.active_tasks == 0
        then decimal 0 0
        else div (as_secs_f64 (sum_durations c.active_tasks)) (of_u64 (length c.active_tasks));
    task_timeout_seconds = c.task_timeout / 1_000_000_000;
  }
