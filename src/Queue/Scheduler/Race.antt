-- ===== src/Queue/Scheduler/Race.antt =====
-- `schedule_task` run by several tasks at once (src/queue/scheduler.rs). It reads the length of the
-- queue under one lock and pushes under another, so other calls can run in between.
use express402_relayer.Common.{
  ℕ, zero, suc, refl, ap, ◌+◌, ◌≤◌, ◌<◌, ◌≡◌, true, false, some, List, [], ◌∷◌, ◌++◌, length,
  length-append, arith,
}
use express402_relayer.Types.Error.{ok}
use express402_relayer.Types.Transaction.{TransactionRequest}
use express402_relayer.Queue.Heap
use express402_relayer.Queue.Scheduler.{
  ScheduledTask, TaskScheduler, cmp, is_full, enqueue, get_next_task,
}
use express402_relayer.Queue.Scheduler.Order.{get_next_task-pop}

-- The scheduler, the callers of `schedule_task` that have not started (`before`) and those between
-- the check and the push (`between`).
pub record Callers : Type 0 where
  pub scheduler : TaskScheduler
  pub before : ℕ
  pub between : List TransactionRequest

-- One atomic step: a caller passes or fails the check, or pushes, or a worker takes a task.
pub data Step : Callers → Callers → Type 0 where
  passes :
      (c : Callers) (n : ℕ) (request : TransactionRequest)
      → c.before ≡ suc n
      → is_full c.scheduler ≡ false
      → Step c (record c { before = n; between = request ∷ c.between })
  refused :
      (c : Callers) (n : ℕ)
      → c.before ≡ suc n
      → is_full c.scheduler ≡ true
      → Step c (record c { before = n })
  pushes :
      (c : Callers) (l r : List TransactionRequest) (request : TransactionRequest) (t u : ℕ)
      → c.between ≡ l ++ request ∷ r
      → Step c (record c { scheduler = enqueue c.scheduler request t u; between = l ++ r })
  takes :
      (c : Callers) (s : TaskScheduler) (task : ScheduledTask)
      → get_next_task c.scheduler ≡ (s, ok (some task))
      → Step c (record c { scheduler = s })

pub data Reach (c : Callers) : Callers → Type 0 where
  here : Reach c c
  next : {d e : Callers} → Reach c d → Step d e → Reach c e

-- `k` callers in all, over a queue with limit `q`.
record Inv (k q : ℕ) (c : Callers) : Type 0 where
  limit : c.scheduler.max_queue_size ≡ q
  callers : length c.between + c.before ≤ k
  spare : length c.scheduler.priority_queue + length c.between < q + k

pub length-enqueue :
    (s : TaskScheduler) (request : TransactionRequest) (t u : ℕ)
    → (length (enqueue s request t u).priority_queue ≡ length s.priority_queue + 1)
      × ((enqueue s request t u).max_queue_size ≡ s.max_queue_size)
unfolding enqueue
length-enqueue s request t u = (omega arith, refl)

length-take :
    (s s' : TaskScheduler) (task : ScheduledTask)
    → get_next_task s ≡ (s', ok (some task))
    → (length s.priority_queue ≡ suc (length s'.priority_queue))
      × (s'.max_queue_size ≡ s.max_queue_size)
length-take s s' task e =
    let (popped, same) = get_next_task-pop s s' task e in
    (Heap.length-pop cmp _ _ popped, ap (λ (t : TaskScheduler). t.max_queue_size) same)

room_left : (s : TaskScheduler) → is_full s ≡ false → length s.priority_queue < s.max_queue_size
unfolding is_full
room_left s h = ground arith

Step-Inv : (k q : ℕ) {c d : Callers} → Step c d → Inv k q c → Inv k q d
Step-Inv k q (passes c n request e room) v = ground (arith, room_left c.scheduler room)
Step-Inv k q (refused c n e full) v = ground arith
Step-Inv k q (pushes c l r request t u e) v = ground (
  arith,
  length-enqueue c.scheduler request t u,
  ap length e,
  length-append l (request ∷ r),
  length-append l r,
)
Step-Inv k q (takes c s task e) v = ground (arith, length-take c.scheduler s task e)

Reach-Inv_of : (k q : ℕ) {c d : Callers} → Inv k q c → Reach c d → Inv k q d
Reach-Inv_of k q v here = v
Reach-Inv_of k q v (next r st) = Step-Inv k q st (Reach-Inv_of k q v r)

-- Whatever `k` concurrent callers and the workers do, the queue holds fewer than `k` tasks more than
-- its limit, if it starts within the limit and no caller is past the check.
pub Reach-length :
    (k q : ℕ) {c d : Callers}
    → c.scheduler.max_queue_size ≡ q
    → length c.scheduler.priority_queue ≤ q
    → c.between ≡ []
    → c.before ≡ k
    → 0 < k
    → Reach c d
    → length d.scheduler.priority_queue < q + k
Reach-length k q {c} {d} limit within none_yet all some_caller r =
    let v : Inv k q c = ground (arith, ap length none_yet) in omega (arith, Reach-Inv_of k q v r)

Reach-trans : {c d e : Callers} → Reach c d → Reach d e → Reach c e
Reach-trans r here = r
Reach-trans r (next t st) = next (Reach-trans r t) st

pass_all :
    (n : ℕ) (c : Callers) (request : TransactionRequest)
    → is_full c.scheduler ≡ false
    → c.before ≡ n
    → (d : Callers) × Reach c d
      × (d.scheduler ≡ c.scheduler)
      × (length d.between ≡ length c.between + n)
pass_all zero c request room e = (c, here, refl, omega arith)
pass_all (suc n) c request room e =
    let (d, r, same, count) =
      pass_all n (record c { before = n; between = request ∷ c.between }) request room refl in
    (d, Reach-trans (next here (passes c n request e room)) r, same, omega arith)

push_all :
    (bs : List TransactionRequest) (c : Callers)
    → c.between ≡ bs
    → (d : Callers) × Reach c d
      × (length d.scheduler.priority_queue ≡ length c.scheduler.priority_queue + length bs)
push_all [] c e = (c, here, omega arith)
push_all (b ∷ bs) c e =
    let (d, r, count) =
      push_all bs (record c { scheduler = enqueue c.scheduler b 0 0; between = bs }) refl in
    (
      d,
      Reach-trans (next here (pushes c [] bs b 0 0 e)) r,
      omega (arith, length-enqueue c.scheduler b 0 0),
    )

-- The bound is reached: from a queue with any room, `n` callers can all pass the check before the
-- first of them pushes, and the queue then holds `n` tasks more.
pub overshoot :
    (n : ℕ) (c : Callers) (request : TransactionRequest)
    → is_full c.scheduler ≡ false
    → c.before ≡ n
    → c.between ≡ []
    → (d : Callers) × Reach c d
      × (length d.scheduler.priority_queue ≡ length c.scheduler.priority_queue + n)
overshoot n c request room e none_yet =
    let (d, r, same, count) = pass_all n c request room e in
    let (d', r', more) = push_all d.between d refl in
    (
      d',
      Reach-trans r r',
      omega (
        arith,
        more,
        count,
        ap length none_yet,
        ap (λ (s : TaskScheduler). length s.priority_queue) same,
      ),
    )
