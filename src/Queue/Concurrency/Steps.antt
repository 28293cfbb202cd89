-- ===== src/Queue/Concurrency/Steps.antt =====
-- The interleavings of the callers (src/queue/concurrency.rs). `acquire_permit` takes a permit, then reads
-- the active tasks under one lock and adds the task under another, so other calls can run in between.
use express402_relayer.Common.{
  ℕ, suc, ◌+◌, ◌≤◌, ◌≡◌, ap, true, false, some, List, [], ◌∷◌, ◌++◌, length, length-append, arith,
}
use express402_relayer.Common.Float.{F64}
use express402_relayer.Queue.Concurrency.{
  ActiveTask, ConcurrencyLimits, ConcurrencyController, new, take_permit, drop_permit,
  check_resource_limits, register, release_permit, cleanup_expired_tasks, adjust_concurrency_limits,
}

module _ (F : F64) where
  -- The controller, the callers with a permit that are before the check (`checking`), those between the check
  -- and the registration (`between`), the granted permits of the current semaphore (`granted`) and those of
  -- the semaphores before it (`outdated`).
  pub record System : Type 0 where
    pub controller : ConcurrencyController F
    pub checking : ℕ
    pub between : List (ActiveTask F)
    pub granted : ℕ
    pub outdated : ℕ

  -- One atomic step. A change of the limits needs the controller for itself, so no acquisition is in progress.
  pub data Step : System → System → Type 0 where
    takes :
        (s : System) (c : ConcurrencyController F)
        → take_permit F s.controller ≡ some c
        → Step s (record s { controller = c; checking = suc s.checking })
    rejected :
        (s : System) (n : ℕ) (t : ActiveTask F)
        → s.checking ≡ suc n
        → check_resource_limits F s.controller t.resource_usage ≡ false
        → Step s (record s { controller = drop_permit F s.controller; checking = n })
    passes :
        (s : System) (n : ℕ) (t : ActiveTask F)
        → s.checking ≡ suc n
        → check_resource_limits F s.controller t.resource_usage ≡ true
        → Step s (record s { checking = n; between = t ∷ s.between })
    registers :
        (s : System) (l r : List (ActiveTask F)) (t : ActiveTask F)
        → s.between ≡ l ++ t ∷ r
        → Step s (record s {
          controller = register F s.controller t;
          between = l ++ r;
          granted = suc s.granted;
        })
    drops :
        (s : System) (n : ℕ)
        → s.granted ≡ suc n
        → Step s (record s { controller = drop_permit F s.controller; granted = n })
    drops_outdated : (s : System) (n : ℕ) → s.outdated ≡ suc n → Step s (record s { outdated = n })
    releases :
        (s : System) (id : ℕ) → Step s (record s { controller = release_permit F s.controller id })
    cleans :
        (s : System) (now : ℕ)
        → Step s (record s { controller = (cleanup_expired_tasks F s.controller now).0 })
    adjusts :
        (s : System) (limits : ConcurrencyLimits F)
        → s.checking ≡ 0
        → s.between ≡ []
        → Step s (record s {
          controller = adjust_concurrency_limits F s.controller limits;
          granted = 0;
          outdated = s.granted + s.outdated;
        })

  pub data Reach (s : System) : System → Type 0 where
    here : Reach s s
    next : {t u : System} → Reach s t → Step t u → Reach s u

  abbrev pub start : ConcurrencyLimits F → System
  start limits = record {
    controller = new F limits;
    checking = 0;
    between = [];
    granted = 0;
    outdated = 0;
  }

  -- Each permit of the current semaphore is free or held by one caller.
  abbrev Inv : System → Type 0
  Inv s =
      s.controller.available_permits + (s.checking + (length s.between + s.granted))
      ≡ s.controller.max_concurrent

  pub take_permit-some :
      (c d : ConcurrencyController F)
      → take_permit F c ≡ some d
      → (c.available_permits ≡ suc d.available_permits)
        × (d.max_concurrent ≡ c.max_concurrent)
        × (d.active_tasks ≡ c.active_tasks)
  unfolding take_permit
  take_permit-some c d e = (ground arith, ground arith, ground arith)

  Step-Inv : {s t : System} → Step s t → Inv s → Inv t
  unfolding drop_permit register release_permit cleanup_expired_tasks adjust_concurrency_limits
  Step-Inv (takes s c e) v = omega (arith, take_permit-some s.controller c e)
  Step-Inv (rejected s n t e no_room) v = omega arith
  Step-Inv (passes s n t e room) v = omega arith
  Step-Inv (registers s l r t e) v =
      omega (arith, ap length e, length-append l (t ∷ r), length-append l r)
  Step-Inv (drops s n e) v = omega arith
  Step-Inv (drops_outdated s n e) v = v
  Step-Inv (releases s id) v = v
  Step-Inv (cleans s now) v = v
  Step-Inv (adjusts s limits e f) v = omega (arith, ap length f)

  Reach-Inv : {s t : System} → Inv s → Reach s t → Inv t
  Reach-Inv v here = v
  Reach-Inv v (next r st) = Step-Inv st (Reach-Inv v r)

  -- Whatever the callers do, in whatever order, and however often the limits are changed: the free permits
  -- and those that are held for the current limits are always as many as these allow, so no more tasks hold
  -- such a permit.
  pub Reach-permits :
      (limits : ConcurrencyLimits F) {t : System}
      → Reach (start limits) t
      → (t.controller.available_permits + (t.checking + (length t.between + t.granted))
          ≡ t.controller.max_concurrent)
        × (t.granted ≤ t.controller.max_concurrent)
  unfolding new
  Reach-permits limits r = let v = Reach-Inv (omega arith) r in (v, omega arith)
