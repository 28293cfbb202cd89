-- ===== src/Queue/Concurrency/Grants.antt =====
-- What a granted permit leaves behind, and what a cleanup drops (src/queue/concurrency.rs).
use express402_relayer.Common.{
  ℕ, suc, ◌+◌, ◌^◌, ◌<◌, ◌≡◌, refl, ap, ◌∙◌, sym, inl, inr, ◌⊎◌, Bool, true, false, not, ◌&&◌, some,
  List, [], ◌∷◌, ◌++◌, ltb, leb, ◌==◌, ==_iff, length, retain, count_if, Map, lookup, insert,
  lookup_inserted, lookup_kept, nat_eq, arith, Bool-cases,
}
use native.Mathlib.Nat.{zero-add}
use express402_relayer.Common.Float.{F64}
use express402_relayer.Types.Error.{queue, text, Result, ok, err}
use express402_relayer.Types.Wallet.{u64}
use express402_relayer.Queue.Concurrency.{
  ResourceUsage, ActiveTask, ConcurrencyController, take_permit, sum_from, cpu, memory, network,
  total, check_resource_limits, make_task, register, acquire_permit, cleanup_expired_tasks,
  get_resource_utilization, count_priorities, get_task_priority_distribution, or_zero,
}

abbrev pub refusal {ℓ} : {A : Type ℓ} → Result A
refusal = err (queue (text "Resource limits exceeded" ∷ []))

module _ (F : F64) where
  take_permit-free :
      (c : ConcurrencyController F) (left : ℕ)
      → c.available_permits ≡ suc left
      → take_permit F c ≡ some (record c { available_permits = left })
  unfolding take_permit
  take_permit-free c left free = ground arith

  sum_from-append :
      (usage : ActiveTask F → F.Carrier) (acc : F.Carrier) (ts : List (ActiveTask F))
      (t : ActiveTask F)
      → sum_from F usage acc (ts ++ t ∷ []) ≡ F.add (sum_from F usage acc ts) (usage t)
  unfolding sum_from
  sum_from-append usage acc [] t = refl
  sum_from-append usage acc (x ∷ ts) t = sum_from-append usage (F.add acc (usage x)) ts t

  total-register :
      (usage : ActiveTask F → F.Carrier) (c : ConcurrencyController F) (t : ActiveTask F)
      → total F usage (register F c t) ≡ F.add (total F usage c) (usage t)
  unfolding total register
  total-register usage c t = sum_from-append usage (F.decimal 0 0) c.active_tasks t

  -- No resource is used beyond 100.
  pub record IsWithin (c : ConcurrencyController F) (now : ℕ) : Type 0 where
    pub cpu_within :
        F.lt (F.decimal 100 0) (get_resource_utilization F c now).cpu_utilization ≡ false
    pub memory_within :
        F.lt (F.decimal 100 0) (get_resource_utilization F c now).memory_utilization ≡ false
    pub network_within :
        F.lt (F.decimal 100 0) (get_resource_utilization F c now).network_utilization ≡ false

  register-IsWithin :
      (c : ConcurrencyController F) (t : ActiveTask F) (now : ℕ)
      → check_resource_limits F c t.resource_usage ≡ true
      → IsWithin (register F c t) now
  unfolding check_resource_limits get_resource_utilization
  register-IsWithin c t now h = record {
    cpu_within = rw (total-register (cpu F) c t) (ground arith);
    memory_within = rw (total-register (memory F) c t) (ground arith);
    network_within = rw (total-register (network F) c t) (ground arith);
  }

  -- With a free permit and no other call in between, an acquisition either is granted: the task is added at
  -- the end, one permit is taken, and no resource is used beyond 100 in sum; or it is refused, since the
  -- usage would pass 100, and leaves the controller as it was.
  acquire_permit-grants :
      (c : ConcurrencyController F) (left task_id priority now now' at : ℕ) (u : ResourceUsage F)
      → c.available_permits ≡ suc left
      → ((d : ConcurrencyController F) × (t : ActiveTask F) × (acquire_permit F c task_id priority u
              now now'
            ≡ some (d, ok t))
          × (d.active_tasks ≡ c.active_tasks ++ t ∷ [])
          × (d.available_permits ≡ left)
          × IsWithin d at)
        ⊎ ((check_resource_limits F c u ≡ false)
            × (acquire_permit F c task_id priority u now now' ≡ some (c, refusal)))
  unfolding acquire_permit make_task register
  acquire_permit-grants c left task_id priority now now' at u free =
      let c' = record c { available_permits = left } in
      let took : take_permit F c ≡ some c' = take_permit-free c left free in
      elim (Bool-cases (check_resource_limits F c' u)) [
        | inl fits ↦ inl (
          register F c' (make_task F c' task_id priority u now now'),
          make_task F c' task_id priority u now now',
          rw (took, acquire_permit) (rw fits refl),
          refl,
          refl,
          register-IsWithin c' (make_task F c' task_id priority u now now') at fits,
        )
        | inr full ↦ inr (
          full,
          rw (took, acquire_permit)
              (rw full (ap (λ n. some (record c { available_permits = n }, refusal)) (sym free))),
        )
      ]

  kept :
      (now : ℕ) (p : ActiveTask F → Bool) (ts : List (ActiveTask F))
      → count_if p (retain (λ (t : ActiveTask F). not (leb t.timeout_at now)) ts)
        ≡ count_if (λ t. ltb now t.timeout_at && p t) ts
  unfolding count_if retain
  kept now p [] = refl
  kept now p (t ∷ ts) = ground (arith, kept now p ts)

  counted :
      (p : ActiveTask F → Bool) (ts : List (ActiveTask F))
      → count_if p ts + length (retain (λ t. not (p t)) ts) ≡ length ts
  unfolding count_if retain
  counted p [] = omega arith
  counted p (t ∷ ts) = ground (arith, counted p ts)

  -- A cleanup returns how many of the tasks have reached their timeout, and keeps exactly the others.
  cleanup_expired_tasks-keeps :
      (c : ConcurrencyController F) (now : ℕ) (p : ActiveTask F → Bool)
      → ((cleanup_expired_tasks F c now).1 + length (cleanup_expired_tasks F c now).0.active_tasks
          ≡ length c.active_tasks)
        × (count_if p (cleanup_expired_tasks F c now).0.active_tasks
            ≡ count_if (λ t. ltb now t.timeout_at && p t) c.active_tasks)
  unfolding cleanup_expired_tasks
  cleanup_expired_tasks-keeps c now p = (
    counted (λ (t : ActiveTask F). leb t.timeout_at now) c.active_tasks,
    kept now p c.active_tasks,
  )

  count_priorities-lookup :
      (m : Map ℕ ℕ) (ts : List (ActiveTask F)) (p : ℕ)
      → or_zero F (lookup p m) < 2 ^ 64
      → or_zero F (lookup p (count_priorities F m ts))
        ≡ u64 (or_zero F (lookup p m) + count_if (λ (t : ActiveTask F). t.priority == p) ts)
  unfolding count_priorities count_if
  count_priorities-lookup m [] p h = omega arith
  count_priorities-lookup m (t ∷ ts) p h =
      let seen = u64 (or_zero F (lookup t.priority m) + 1) in
      let rest = count_priorities-lookup (insert t.priority seen m) ts p in
      elim (Bool-cases (t.priority == p)) [
        | inl same ↦
            let now : or_zero F (lookup p (insert t.priority seen m))
                ≡ u64 (or_zero F (lookup p m) + 1) =
              ap (or_zero F) (lookup_inserted t.priority p seen m same)
              ∙ ap (λ k. u64 (or_zero F (lookup k m) + 1)) ((==_iff t.priority p).0 same) in
            rw same (rest (omega arith) ∙ omega arith)
        | inr other ↦
            let now : or_zero F (lookup p (insert t.priority seen m)) ≡ or_zero F (lookup p m) =
              ap (or_zero F) (lookup_kept t.priority p seen m other) in
            rw other (rest (omega arith) ∙ omega arith)
      ]

  -- The distribution has, for each priority, the number of the active tasks with it, in 64 bits.
  get_task_priority_distribution-counts :
      (c : ConcurrencyController F) (p : ℕ)
      → or_zero F (lookup p (get_task_priority_distribution F c).distribution)
        ≡ u64 (count_if (λ (t : ActiveTask F). t.priority == p) c.active_tasks)
  unfolding get_task_priority_distribution lookup
  get_task_priority_distribution-counts c p =
      count_priorities-lookup [] c.active_tasks p (omega arith) ∙ ap u64 (zero-add _)
