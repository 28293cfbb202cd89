-- ===== src/Queue/Concurrency/Tests.antt =====
-- The theorems about the controller at concrete tasks (src/queue/concurrency.rs).
use express402_relayer.Common.{ℕ, ◌+◌, ◌*◌, ◌≤◌, ◌≡◌, refl, true, [], ◌∷◌, length, nat_eq, arith}
use express402_relayer.Common.Samples.{fixed}
use express402_relayer.Queue.Concurrency.{
  ResourceUsage, ActiveTask, ConcurrencyController, default_limits, new, take_permit,
  check_resource_limits,
}
use express402_relayer.Queue.Concurrency.Steps.{
  System, start, Reach, here, next, takes, Reach-permits,
}
use express402_relayer.Queue.Concurrency.Overshoot.{
  copies, check_resource_limits-race, adjust_concurrency_limits-overshoot,
}

abbrev usage : ℕ → ResourceUsage fixed
usage percent = record {
  cpu_usage = percent * 1000;
  memory_usage = percent * 1000;
  network_usage = percent * 1000;
  estimated_duration = 60;
}

abbrev task : ℕ → ℕ → ActiveTask fixed
task id timeout = record {
  id = id;
  started_at = 0;
  timeout_at = timeout;
  priority = 2;
  resource_usage = usage 60;
}

abbrev busy : ConcurrencyController fixed
busy = record (new fixed (default_limits fixed)) { active_tasks = task 1 50 ∷ task 2 90 ∷ [] }

abbrev free : ConcurrencyController fixed
free = record {
  available_permits = 10;
  active_tasks = [];
  max_concurrent = 10;
  max_queue_size = 20;
  task_timeout = 300;
}

abbrev one_taken : System fixed
one_taken = record (start fixed (default_limits fixed)) {
  controller = record (new fixed (default_limits fixed)) { available_permits = 9 };
  checking = 1;
}

one_taken-Reach : Reach fixed (start fixed (default_limits fixed)) one_taken
unfolding new default_limits take_permit
one_taken-Reach = next here (takes (start fixed (default_limits fixed)) _ refl)

Reach-permits_example :
    (one_taken.controller.available_permits
        + (one_taken.checking + (length one_taken.between + one_taken.granted))
      ≡ one_taken.controller.max_concurrent)
    × (one_taken.granted ≤ one_taken.controller.max_concurrent)
Reach-permits_example = Reach-permits fixed (default_limits fixed) one_taken-Reach

-- Three tasks of 60 percent each.
check_resource_limits-race_example :
    (d : System fixed) × Reach fixed
      (record (start fixed (default_limits fixed)) { controller = free })
      d
    × (d.controller.active_tasks ≡ copies fixed 3 (task 1 50))
unfolding check_resource_limits
check_resource_limits-race_example =
    check_resource_limits-race fixed 3
      (record (start fixed (default_limits fixed)) { controller = free }) (task 1 50) (omega arith)
      refl refl room
  where
    room : check_resource_limits fixed free (usage 60) ≡ true
    room = refl

adjust_concurrency_limits-overshoot_example :
    (d : System fixed) × Reach fixed
      (record (start fixed (default_limits fixed)) { controller = free; granted = 10 })
      d
    × (d.controller.max_concurrent ≡ 10)
    × (d.checking ≡ 10)
    × (d.outdated ≡ 10)
unfolding default_limits
adjust_concurrency_limits-overshoot_example =
    adjust_concurrency_limits-overshoot fixed
      (record (start fixed (default_limits fixed)) { controller = free; granted = 10 })
      (default_limits fixed) refl refl
