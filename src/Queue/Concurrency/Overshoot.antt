-- ===== src/Queue/Concurrency/Overshoot.antt =====
-- What the interleavings allow (src/queue/concurrency.rs): callers that are checked together, and a change
-- of the limits while permits are held.
use express402_relayer.Common.{
  ℕ, zero, suc, ◌+◌, ◌-◌, ◌≤◌, ◌≡◌, refl, ap, ◌∙◌, sym, true, some, List, [], ◌∷◌, ◌++◌, arith,
}
use mathlib.Core.List.{append_assoc, append-nil}
use express402_relayer.Common.Float.{F64}
use express402_relayer.Queue.Concurrency.{
  ActiveTask, ConcurrencyLimits, ConcurrencyController, take_permit, check_resource_limits,
  register, adjust_concurrency_limits,
}
use express402_relayer.Queue.Concurrency.Steps.{
  System, takes, passes, registers, adjusts, Reach, here, next,
}

module _ (F : F64) where
  Reach-trans : {s t u : System F} → Reach F s t → Reach F t u → Reach F s u
  Reach-trans r here = r
  Reach-trans r (next q st) = next (Reach-trans r q) st

  -- While permits are free, `n` callers take one each.
  take_all :
      (n : ℕ) (s : System F)
      → n ≤ s.controller.available_permits
      → (d : System F) × Reach F s d
        × (d.controller.active_tasks ≡ s.controller.active_tasks)
        × (d.controller.max_concurrent ≡ s.controller.max_concurrent)
        × (d.checking ≡ s.checking + n)
        × (d.between ≡ s.between)
        × (d.granted ≡ s.granted)
        × (d.outdated ≡ s.outdated)
  unfolding take_permit
  take_all zero s h = (s, here, refl, refl, omega arith, refl, refl, refl)
  take_all (suc n) s h =
      let left = s.controller.available_permits - 1 in
      let taken : take_permit F s.controller
          ≡ some (record s.controller { available_permits = left }) =
        ground arith in
      let (d, r, tasks, most, count, b, g, o) =
        take_all n
          (record s {
            controller = record s.controller { available_permits = left };
            checking = suc s.checking;
          })
          (omega arith) in
      (d, Reach-trans (next here (takes s _ taken)) r, tasks, most, omega arith, b, g, o)

  abbrev pub copies : ℕ → ActiveTask F → List (ActiveTask F)
  copies zero t = []
  copies (suc n) t = t ∷ copies n t

  -- `n` callers with the same usage all pass the check on the same active tasks.
  pass_all :
      (n k : ℕ) (s : System F) (t : ActiveTask F)
      → check_resource_limits F s.controller t.resource_usage ≡ true
      → s.checking ≡ n
      → s.between ≡ copies k t
      → (d : System F) × Reach F s d
        × (d.controller ≡ s.controller)
        × (d.between ≡ copies (n + k) t)
  pass_all zero k s t room e b = (s, here, refl, b ∙ ap (λ i. copies i t) (omega arith))
  pass_all (suc n) k s t room e b =
      let (d, r, same, later) =
        pass_all n (suc k) (record s { checking = n; between = t ∷ s.between }) t room refl
          (ap (λ l. t ∷ l) b) in
      (
        d,
        Reach-trans (next here (passes s n t e room)) r,
        same,
        later ∙ ap (λ i. copies i t) (omega arith),
      )

  -- The check reads the active tasks alone.
  room_for :
      (a s : System F) (t : ActiveTask F)
      → a.controller.active_tasks ≡ s.controller.active_tasks
      → check_resource_limits F s.controller t.resource_usage ≡ true
      → check_resource_limits F a.controller t.resource_usage ≡ true
  unfolding check_resource_limits
  room_for a s t same room =
      ap (λ l. check_resource_limits F (record s.controller { active_tasks = l }) t.resource_usage)
        same
      ∙ room

  register_all :
      (n : ℕ) (s : System F) (t : ActiveTask F)
      → s.between ≡ copies n t
      → (d : System F) × Reach F s d
        × (d.controller.active_tasks ≡ s.controller.active_tasks ++ copies n t)
  unfolding register
  register_all zero s t e = (s, here, sym (append-nil _))
  register_all (suc n) s t e =
      let (d, r, tasks) =
        register_all n
          (record s {
            controller = register F s.controller t;
            between = copies n t;
            granted = suc s.granted;
          })
          t refl in
      (
        d,
        Reach-trans (next here (registers s [] (copies n t) t e)) r,
        tasks ∙ append_assoc s.controller.active_tasks (t ∷ []) (copies n t),
      )

  -- The limits on the resources do not hold under concurrency: if a task passes the check and `n` permits are
  -- free, `n` callers with its usage can all pass on the same active tasks and then all be registered.
  pub check_resource_limits-race :
      (n : ℕ) (s : System F) (t : ActiveTask F)
      → n ≤ s.controller.available_permits
      → s.checking ≡ 0
      → s.between ≡ []
      → check_resource_limits F s.controller t.resource_usage ≡ true
      → (d : System F) × Reach F s d
        × (d.controller.active_tasks ≡ s.controller.active_tasks ++ copies n t)
  check_resource_limits-race n s t free idle none_yet room =
      let (a, taking, tasks, _, count, b, _, _) = take_all n s free in
      let (p, passing, same, between) =
        pass_all n 0 a t (room_for a s t tasks room) (omega arith) (b ∙ none_yet) in
      let (d, registering, all) =
        register_all n p t (between ∙ ap (λ i. copies i t) (omega arith)) in
      (
        d,
        Reach-trans taking (Reach-trans passing registering),
        all
            ∙ ap (λ (c : ConcurrencyController F). c.active_tasks ++ copies n t) same
            ∙ ap (λ l. l ++ copies n t) tasks,
      )

  -- A change of the limits makes a new semaphore, and the permits of the old one are held on: with `limits` of
  -- `m` tasks, `m` callers get a permit while all that were granted before still hold theirs.
  pub adjust_concurrency_limits-overshoot :
      (s : System F) (limits : ConcurrencyLimits F)
      → s.checking ≡ 0
      → s.between ≡ []
      → (d : System F) × Reach F s d
        × (d.controller.max_concurrent ≡ limits.max_concurrent_tasks)
        × (d.checking ≡ limits.max_concurrent_tasks)
        × (d.outdated ≡ s.granted + s.outdated)
  unfolding adjust_concurrency_limits
  adjust_concurrency_limits-overshoot s limits idle none_yet =
      let (d, r, _, most, count, _, _, old) =
        take_all limits.max_concurrent_tasks
          (record s {
            controller = adjust_concurrency_limits F s.controller limits;
            granted = 0;
            outdated = s.granted + s.outdated;
          })
          (omega arith) in
      (d, Reach-trans (next here (adjusts s limits idle none_yet)) r, most, omega arith, old)
