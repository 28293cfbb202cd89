-- ===== src/Queue/Priority/History.antt =====
-- What the history of a priority says (src/queue/priority.rs, `update_priority_history`).
use express402_relayer.Common.{
  ℕ, suc, ◌+◌, ◌^◌, ◌≤◌, ◌<◌, ◌≡◌, refl, ap, ◌∙◌, sym, subst, inl, inr, Bool, true, false, ◌&&◌,
  Option, none, some, String, List, [], ◌∷◌, if◌then◌else◌, length, count_if, lookup,
  lookup_inserted, lookup_kept, string_eq, arith, Bool-cases,
}
use express402_relayer.Common.Float.{F64}
use express402_relayer.Types.Transaction.{Priority}
use express402_relayer.Queue.Priority.{
  PriorityHistory, PriorityCalculator, new_calculator, priority_to_string, history_or_new,
  record_task, update_priority_history,
}

module _ (F : F64) where
  -- A finished task: its priority, its time, whether it succeeded, and two readings of the clock.
  pub record Task : Type 0 where
    pub priority : Priority
    pub completion_time : F.Carrier
    pub success : Bool
    pub created : ℕ
    pub now : ℕ

  unfoldable pub run : PriorityCalculator F → List Task → PriorityCalculator F
  run c [] = c
  run c (t ∷ rest) =
      run (update_priority_history F c t.priority t.completion_time t.success t.created t.now) rest

  -- A task of a priority, and one that succeeded.
  abbrev pub has_priority : Priority → Task → Bool
  has_priority p t = string_eq.beq (priority_to_string t.priority) (priority_to_string p)

  abbrev pub succeeded : Priority → Task → Bool
  succeeded p t = has_priority p t && t.success

  -- The history of a priority.
  abbrev pub history_of : PriorityCalculator F → Priority → Option (PriorityHistory F)
  history_of c p = lookup (priority_to_string p) c.historical_data

  abbrev pub totals : Option (PriorityHistory F) → ℕ
  totals none = 0
  totals (some h) = h.total_tasks

  abbrev pub completions : Option (PriorityHistory F) → ℕ
  completions none = 0
  completions (some h) = h.completed_tasks

  -- A stored rate is that of the stored counts.
  abbrev pub RateAgrees : Option (PriorityHistory F) → Type 0
  RateAgrees none = Unit {0}
  RateAgrees (some h) = h.success_rate ≡ F.div (F.of_u64 h.completed_tasks) (F.of_u64 h.total_tasks)

  -- What `n` tasks, `k` of them successful, leave in a history.
  record Counts (o : Option (PriorityHistory F)) (n k : ℕ) : Type 0 where
    all : totals o ≡ n
    done : completions o ≡ k
    rate : RateAgrees o

  history_or_new-totals :
      (o : Option (PriorityHistory F)) (s : String) (now : ℕ)
      → ((history_or_new F o s now).total_tasks ≡ totals o)
        × ((history_or_new F o s now).completed_tasks ≡ completions o)
  history_or_new-totals none s now = (refl, refl)
  history_or_new-totals (some h) s now = (refl, refl)

  record_task-Counts :
      (h : PriorityHistory F) (time : F.Carrier) (success : Bool) (now n k : ℕ)
      → n + 1 < 2 ^ 64
      → k ≤ n
      → h.total_tasks ≡ n
      → h.completed_tasks ≡ k
      → Counts (some (record_task F h time success now)) (n + 1) (if success then k + 1 else k)
  unfolding record_task
  record_task-Counts h time true now n k small le a d = record {
    all = omega arith;
    done = omega arith;
    rate = refl;
  }
  record_task-Counts h time false now n k small le a d = record {
    all = omega arith;
    done = d;
    rate = refl;
  }

  abbrev updated : PriorityCalculator F → Task → PriorityCalculator F
  updated c t = update_priority_history F c t.priority t.completion_time t.success t.created t.now

  updated-same :
      (c : PriorityCalculator F) (t : Task) (p : Priority) (n k : ℕ)
      → n + 1 < 2 ^ 64
      → k ≤ n
      → has_priority p t ≡ true
      → Counts (history_of c p) n k
      → Counts (history_of (updated c t) p) (n + 1) (if t.success then k + 1 else k)
  unfolding update_priority_history
  updated-same c t p n k small le same v =
      let key = (string_eq.beq_iff (priority_to_string t.priority) (priority_to_string p)).0 same in
      let before = lookup (priority_to_string t.priority) c.historical_data in
      let old = history_or_new F before (priority_to_string t.priority) t.created in
      let (all, done) = history_or_new-totals before (priority_to_string t.priority) t.created in
      let stored : history_of (updated c t) p
          ≡ some (record_task F old t.completion_time t.success t.now) =
        lookup_inserted (priority_to_string t.priority) (priority_to_string p) _ c.historical_data
          same in
      subst (λ o. Counts o (n + 1) (if t.success then k + 1 else k)) (sym stored)
        (record_task-Counts old t.completion_time t.success t.now n k small le
          (all ∙ ap (λ s. totals (lookup s c.historical_data)) key ∙ v.all)
          (done ∙ ap (λ s. completions (lookup s c.historical_data)) key ∙ v.done))

  updated-other :
      (c : PriorityCalculator F) (t : Task) (p : Priority)
      → has_priority p t ≡ false
      → history_of (updated c t) p ≡ history_of c p
  unfolding update_priority_history
  updated-other c t p other =
      lookup_kept (priority_to_string t.priority) (priority_to_string p) _ c.historical_data other

  recount :
      (o : Option (PriorityHistory F)) (n k n' k' : ℕ)
      → Counts o n k
      → n ≡ n'
      → k ≡ k'
      → Counts o n' k'
  recount o n k n' k' v e f = record { all = v.all ∙ e; done = v.done ∙ f; rate = v.rate }

  run-Counts :
      (c : PriorityCalculator F) (ts : List Task) (p : Priority) (n k : ℕ)
      → n + length ts < 2 ^ 64
      → k ≤ n
      → Counts (history_of c p) n k
      → Counts
          (history_of (run c ts) p)
          (n + count_if (has_priority p) ts)
          (k + count_if (succeeded p) ts)
  unfolding run count_if
  run-Counts c [] p n k small le v =
      recount (history_of c p) n k (n + 0) (k + 0) v (omega arith) (omega arith)
  run-Counts c (t ∷ ts) p n k small le v = elim (Bool-cases (has_priority p t)) [
    | inl same ↦
        recount (history_of (run (updated c t) ts) p) _ _ _ _
          (run-Counts (updated c t) ts p (n + 1) (if t.success then k + 1 else k) (omega arith)
            (ground arith) (updated-same c t p n k (omega arith) le same v))
          (rw same (omega arith)) (rw same (tally t.success))
    | inr other ↦
        recount (history_of (run (updated c t) ts) p) _ _ _ _
          (run-Counts (updated c t) ts p n k (omega arith) le
            (subst (λ o. Counts o n k) (sym (updated-other c t p other)) v))
          (rw other refl) (rw other refl)
  ]
    where
      tally :
          (b : Bool)
          → (if b then k + 1 else k) + count_if (succeeded p) ts
            ≡ k + (if true && b then suc (count_if (succeeded p) ts) else count_if (succeeded p) ts)
      tally true = omega arith
      tally false = refl

  -- After any tasks of a new calculator, fewer than 2 ^ 64, the history of a priority counts exactly the tasks
  -- with it and those of them that succeeded, and its rate of success, where it has one, is the quotient of
  -- the two.
  pub update_priority_history-counts :
      (ts : List Task) (p : Priority)
      → length ts < 2 ^ 64
      → (totals (history_of (run (new_calculator F) ts) p) ≡ count_if (has_priority p) ts)
        × (completions (history_of (run (new_calculator F) ts) p) ≡ count_if (succeeded p) ts)
        × RateAgrees (history_of (run (new_calculator F) ts) p)
  unfolding new_calculator lookup
  update_priority_history-counts ts p small =
      let v =
        run-Counts (new_calculator F) ts p 0 0 (omega arith) (omega arith)
          (record { all = refl; done = refl; rate = tt }) in
      (v.all ∙ omega arith, v.done ∙ omega arith, v.rate)
