-- ===== src/Queue/Scheduler/Order.antt =====
-- In which order `get_next_task` hands tasks out (src/queue/scheduler.rs, `Ord for ScheduledTask`).
use mathlib.Core.List.Perm
use native.Mathlib.Bridge.{le_prop}
use express402_relayer.Common.{
  Mem, All-mem, ◌≤◌, ◌<◌, ◌≡◌, ◌≢◌, ◌⊎◌, ◌∷◌, Perm, some, Ordering, All, All-map, arith,
}
use express402_relayer.Types.Error.{ok}
use express402_relayer.Queue.Heap
use express402_relayer.Queue.Heap.{IsComparison, AtMost}
use express402_relayer.Queue.Scheduler.{ScheduledTask, cmp, TaskScheduler, get_next_task}

cmp-flip : (a b : ScheduledTask) → cmp a b ≢ Ordering.lt → cmp b a ≢ Ordering.gt
unfolding cmp
cmp-flip a b h = ground arith

cmp_trans :
    (a b c : ScheduledTask) → cmp a b ≢ Ordering.gt → cmp b c ≢ Ordering.gt → cmp a c ≢ Ordering.gt
unfolding cmp
cmp_trans a b c h k = ground arith

-- `cmp` is a total preorder, as `Ord` asks.
cmp-IsComparison : IsComparison cmp
cmp-IsComparison = record { flip = cmp-flip; trans = cmp_trans }

-- `u` has a higher weight than `t`, or the same weight and no later time.
abbrev pub After : ScheduledTask → ScheduledTask → Type 0
After t u =
    (t.priority < u.priority) ⊎ ((t.priority ≡ u.priority) × (u.scheduled_at ≤ t.scheduled_at))

After-AtMost : (t u : ScheduledTask) → AtMost cmp t u → After t u
unfolding cmp
After-AtMost t u h = ground arith

-- A successful `get_next_task` is a `pop` of the heap, and touches nothing else.
pub get_next_task-pop :
    (s s' : TaskScheduler) (t : ScheduledTask)
    → get_next_task s ≡ (s', ok (some t))
    → (Heap.pop cmp s.priority_queue ≡ some (t, s'.priority_queue))
      × (s' ≡ record s { priority_queue = s'.priority_queue })
unfolding get_next_task
get_next_task-pop s s' t e = ground arith

-- A successful `get_next_task` takes one task out of the queue, leaves the other tasks there and changes
-- nothing else. The task taken has the lowest weight of all that waited and, among those of that weight,
-- the latest `scheduled_at`. (This is the reverse of the order that the comment in `cmp`, the test
-- test_task_priority and the README state, where a higher priority comes first.)
pub get_next_task-After :
    (s s' : TaskScheduler) (t : ScheduledTask)
    → get_next_task s ≡ (s', ok (some t))
    → Perm s.priority_queue (t ∷ s'.priority_queue)
      × All (After t) s'.priority_queue
      × (s' ≡ record s { priority_queue = s'.priority_queue })
get_next_task-After s s' t e =
    let (popped, same) = get_next_task-pop s s' t e in
    (
      Heap.pop-perm cmp _ _ popped,
      All-map (AtMost cmp t) (After t) (After-AtMost t) _
          (Heap.pop-All cmp cmp-IsComparison _ _ popped),
      same,
    )

-- A task that waits beside one of lower weight is never the one handed out next.
get_next_task-lower_first :
    (s s' : TaskScheduler) (t u : ScheduledTask)
    → Mem u s.priority_queue
    → u.priority < t.priority
    → get_next_task s ≢ (s', ok (some t))
get_next_task-lower_first s s' t u waits lower e =
    let (taken, rest, _) = get_next_task-After s s' t e in
    let lowest : t.priority ≤ u.priority =
      All-mem (λ v. t.priority ≤ v.priority) (λ v. le_prop) (t ∷ s'.priority_queue) u
        ((Perm.mem_iff taken).0 waits)
        (
          omega arith,
          All-map (After t) (λ v. t.priority ≤ v.priority) (λ v a. ground arith) _ rest,
        ) in
    absurd (omega arith)
