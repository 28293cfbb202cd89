-- ===== src/Queue/Priority/Tests.antt =====
-- The theorems about priorities at concrete tasks (src/queue/priority.rs).
use express402_relayer.Common.{
  ℕ, ◌*◌, ◌≤◌, ◌≡◌, refl, ◌⊎◌, inl, inr, Bool, true, false, leb, List, [], ◌∷◌, count_if, string_eq,
  arith, Bool-cases, leb→le,
}
use native.Mathlib.Nat.{mul-le-mul_right}
use express402_relayer.Common.Samples.{fixed}
use express402_relayer.Types.Transaction.{Priority}
use express402_relayer.Queue.Priority.{PriorityFactors, new_calculator, calculate_optimal_priority}
use express402_relayer.Queue.Priority.Optimal.{KeepsOrder, calculate_optimal_priority-critical}
use express402_relayer.Queue.Priority.History.{
  Task, run, history_of, totals, completions, RateAgrees, update_priority_history-counts,
}

fixed-KeepsOrder : (c : ℕ) → KeepsOrder fixed c
fixed-KeepsOrder c a b h =
    let more : a * c ≤ b * c = mul-le-mul_right c (leb→le a b h) in ground arith

leb_trans : (a b c : ℕ) → leb a b ≡ true → leb b c ≡ true → leb a c ≡ true
leb_trans a b c h k = ground arith

leb_total : (a b : ℕ) → (leb a b ≡ true) ⊎ (leb b a ≡ true)
leb_total a b = elim (Bool-cases (leb a b)) [ inl h ↦ inl h | inr h ↦ inr (ground arith) ]

-- A cheap request of the lowest tier that has waited for a minute.
abbrev cheap : PriorityFactors fixed
cheap = record {
  age_seconds = 60;
  user_tier_multiplier = 100;
  gas_price_ratio = 500;
  network_congestion_multiplier = 900;
  retry_count = 0;
  estimated_gas_cost = 21000;
}

calculate_optimal_priority-critical_example :
    calculate_optimal_priority fixed (new_calculator fixed) cheap ≡ Priority.critical
unfolding new_calculator
calculate_optimal_priority-critical_example =
    calculate_optimal_priority-critical fixed (new_calculator fixed) cheap refl
      (fixed-KeepsOrder 1200) (fixed-KeepsOrder 1100) (fixed-KeepsOrder 100) (fixed-KeepsOrder 900)
      refl refl refl

abbrev task : Priority → Bool → Task fixed
task p success = record {
  priority = p;
  completion_time = 120_000;
  success = success;
  created = 5;
  now = 6;
}

abbrev tasks : List (Task fixed)
tasks = task Priority.normal true ∷ task Priority.high true ∷ task Priority.normal false ∷ []

update_priority_history-counts_example :
    (totals fixed (history_of fixed (run fixed (new_calculator fixed) tasks) Priority.normal) ≡ 2)
    × (completions fixed (history_of fixed (run fixed (new_calculator fixed) tasks) Priority.normal)
        ≡ 1)
    × RateAgrees fixed (history_of fixed (run fixed (new_calculator fixed) tasks) Priority.normal)
unfolding count_if
update_priority_history-counts_example =
    update_priority_history-counts fixed tasks Priority.normal (omega arith)
