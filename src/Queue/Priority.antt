-- ===== src/Queue/Priority.antt =====
-- src/queue/priority.rs: `PriorityManager`, which scores the priorities, and `PriorityCalculator`, which
-- recommends one and keeps a history of each. Text that is joined is kept as the pieces of a message.
mod Optimal
mod History
mod Tests
use express402_relayer.Common.{
  ℕ, ◌+◌, ◌-◌, ◌%◌, ◌^◌, Bool, true, false, ◌&&◌, Option, none, some, String, List, [], ◌∷◌, ◌++◌,
  ltb, ◌==◌, if◌then◌else◌, length, Map, lookup, insert, string_eq,
}
use express402_relayer.Common.Float.{F64}
use express402_relayer.Types.Error.{Message, text, num}
use express402_relayer.Types.Transaction.{Priority}
use express402_relayer.Types.Wallet.{u64, sub_u64}

abbrev pub priority_to_string : Priority → String
priority_to_string Priority.low = "low"
priority_to_string Priority.normal = "normal"
priority_to_string Priority.high = "high"
priority_to_string Priority.critical = "critical"

module _ (F : F64) where
  open F use {Carrier, of_u64, decimal, add, mul, div, min, lt, le}

  pub record PriorityManager : Type 0 where
    pub priority_weights : Map String ℕ
    pub priority_multipliers : Map String Carrier
    pub dynamic_adjustments : Map String Carrier

  pub record PriorityFactors : Type 0 where
    pub age_seconds : ℕ
    pub user_tier_multiplier : Carrier
    pub gas_price_ratio : Carrier
    pub network_congestion_multiplier : Carrier
    pub retry_count : ℕ
    pub estimated_gas_cost : ℕ

  unfoldable pub default_factors : PriorityFactors
  default_factors = record {
    age_seconds = 0;
    user_tier_multiplier = decimal 1 0;
    gas_price_ratio = decimal 1 0;
    network_congestion_multiplier = decimal 1 0;
    retry_count = 0;
    estimated_gas_cost = 0;
  }

  unfoldable pub new : PriorityManager
  new = record {
    priority_weights = ("low", 1) ∷ ("normal", 2) ∷ ("high", 3) ∷ ("critical", 4) ∷ [];
    priority_multipliers =
        ("low", decimal 5 1)
        ∷ ("normal", decimal 1 0)
        ∷ ("high", decimal 15 1)
        ∷ ("critical", decimal 2 0)
        ∷ [];
    dynamic_adjustments = [];
  }

  -- `copied().unwrap_or(...)`.
  abbrev pub unwrap_or {ℓ} : {A : Type ℓ} → A → Option A → A
  unwrap_or d none = d
  unwrap_or d (some a) = a

  unfoldable pub get_priority_weight : PriorityManager → Priority → ℕ
  get_priority_weight m p = unwrap_or 2 (lookup (priority_to_string p) m.priority_weights)

  unfoldable pub get_priority_multiplier : PriorityManager → Priority → Carrier
  get_priority_multiplier m p =
      unwrap_or (decimal 1 0) (lookup (priority_to_string p) m.priority_multipliers)

  -- The adjustments by age, user tier, gas price and congestion.
  unfoldable pub scale : PriorityFactors → Carrier → Carrier
  scale f base =
      let aged = if ltb 300 f.age_seconds then mul base (decimal 12 1) else base in
      let tiered = mul aged f.user_tier_multiplier in
      let priced =
        if lt (decimal 15 1) f.gas_price_ratio then mul tiered (decimal 11 1) else tiered in
      mul priced f.network_congestion_multiplier

  abbrev pub adjust : Option Carrier → Carrier → Carrier
  adjust none x = x
  adjust (some adjustment) x = mul x adjustment

  unfoldable pub calculate_dynamic_priority : PriorityManager → Priority → PriorityFactors → Carrier
  unfolding get_priority_weight get_priority_multiplier scale
  calculate_dynamic_priority m p f =
      adjust (lookup (priority_to_string p) m.dynamic_adjustments)
        (scale f (mul (of_u64 (get_priority_weight m p)) (get_priority_multiplier m p)))

  unfoldable pub set_priority_weight : PriorityManager → Priority → ℕ → PriorityManager
  set_priority_weight m p weight = record m {
    priority_weights = insert (priority_to_string p) weight m.priority_weights;
  }

  unfoldable pub set_priority_multiplier : PriorityManager → Priority → Carrier → PriorityManager
  set_priority_multiplier m p multiplier = record m {
    priority_multipliers = insert (priority_to_string p) multiplier m.priority_multipliers;
  }

  unfoldable pub adjust_priority_dynamically :
      PriorityManager → Priority → Carrier → PriorityManager
  adjust_priority_dynamically m p adjustment = record m {
    dynamic_adjustments = insert (priority_to_string p) adjustment m.dynamic_adjustments;
  }

  unfoldable pub reset_dynamic_adjustments : PriorityManager → PriorityManager
  reset_dynamic_adjustments m = record m { dynamic_adjustments = [] }

  pub record PriorityStats : Type 0 where
    pub total_weights : ℕ
    pub total_multipliers : Carrier
    pub dynamic_adjustments_count : ℕ
    pub priority_distribution : Map String ℕ

  -- `u32` sums.
  unfoldable pub sum_weights : ℕ → Map String ℕ → ℕ
  sum_weights acc [] = acc
  sum_weights acc ((p, weight) ∷ rest) = sum_weights ((acc + weight) % 2 ^ 32) rest

  unfoldable pub sum_multipliers : Carrier → Map String Carrier → Carrier
  sum_multipliers acc [] = acc
  sum_multipliers acc ((p, multiplier) ∷ rest) = sum_multipliers (add acc multiplier) rest

  unfoldable pub insert_all : Map String ℕ → Map String ℕ → Map String ℕ
  insert_all acc [] = acc
  insert_all acc ((p, weight) ∷ rest) = insert_all (insert p weight acc) rest

  unfoldable pub get_priority_stats : PriorityManager → PriorityStats
  unfolding sum_weights sum_multipliers insert_all
  get_priority_stats m = record {
    total_weights = sum_weights 0 m.priority_weights;
    total_multipliers = sum_multipliers (decimal 0 0) m.priority_multipliers;
    dynamic_adjustments_count = length m.dynamic_adjustments;
    priority_distribution = insert_all [] m.priority_weights;
  }

  pub record PriorityHistory : Type 0 where
    pub priority_type : String
    pub total_tasks : ℕ
    pub completed_tasks : ℕ
    pub average_completion_time : Carrier
    pub success_rate : Carrier
    pub last_updated : ℕ

  pub record PriorityCalculator : Type 0 where
    pub priority_manager : PriorityManager
    pub historical_data : Map String PriorityHistory

  unfoldable pub new_calculator : PriorityCalculator
  unfolding new
  new_calculator = record { priority_manager = new; historical_data = [] }

  -- `a >= b` on floats.
  abbrev pub ge : Carrier → Carrier → Bool
  ge a b = le b a

  abbrev pub highest : Carrier → Carrier → Carrier → Carrier → Priority
  highest low normal high critical =
      if ge critical high && (ge critical normal && ge critical low)
      then Priority.critical
      else if ge high normal && ge high low
      then Priority.high
      else if ge normal low
      then Priority.normal
      else Priority.low

  unfoldable pub calculate_optimal_priority : PriorityCalculator → PriorityFactors → Priority
  unfolding calculate_dynamic_priority
  calculate_optimal_priority c f =
      highest (calculate_dynamic_priority c.priority_manager Priority.low f)
        (calculate_dynamic_priority c.priority_manager Priority.normal f)
        (calculate_dynamic_priority c.priority_manager Priority.high f)
        (calculate_dynamic_priority c.priority_manager Priority.critical f)

  abbrev pub history_or_new : Option PriorityHistory → String → ℕ → PriorityHistory
  history_or_new (some h) priority_str now = h
  history_or_new none priority_str now = record {
    priority_type = priority_str;
    total_tasks = 0;
    completed_tasks = 0;
    average_completion_time = decimal 0 0;
    success_rate = decimal 0 0;
    last_updated = now;
  }

  -- The update of one history.
  unfoldable pub record_task : PriorityHistory → Carrier → Bool → ℕ → PriorityHistory
  record_task h completion_time success now = record h {
    total_tasks = total;
    completed_tasks = completed;
    average_completion_time =
        div (add (mul h.average_completion_time (of_u64 (sub_u64 total 1))) completion_time)
          (of_u64 total);
    success_rate = div (of_u64 completed) (of_u64 total);
    last_updated = now;
  }
    where
      total : ℕ
      total = u64 (h.total_tasks + 1)

      completed : ℕ
      completed = if success then u64 (h.completed_tasks + 1) else h.completed_tasks

  unfoldable pub update_priority_history :
      PriorityCalculator → Priority → Carrier → Bool → ℕ → ℕ → PriorityCalculator
  unfolding record_task
  update_priority_history c p completion_time success created now = record c {
    historical_data =
        insert (priority_to_string p)
          (record_task
            (history_or_new (lookup (priority_to_string p) c.historical_data) (priority_to_string p)
              created)
            completion_time success now)
          c.historical_data;
  }

  pub record PriorityRecommendation : Type 0 where
    pub recommended_priority : Priority
    pub estimated_completion_time : Carrier
    pub expected_success_rate : Carrier
    pub confidence_score : Carrier
    pub reasoning : Message

  unfoldable pub calculate_confidence_score : PriorityFactors → Carrier
  calculate_confidence_score f =
      let aged = if ltb 0 f.age_seconds then add (decimal 5 1) (decimal 1 1) else decimal 5 1 in
      let fresh = if f.retry_count == 0 then add aged (decimal 1 1) else aged in
      let calm =
        if lt (decimal 8 1) f.network_congestion_multiplier
          && lt f.network_congestion_multiplier (decimal 12 1)
        then add fresh (decimal 1 1)
        else fresh in
      min calm (decimal 1 0)

  -- A reason behind those before it, with the separator of `join`.
  abbrev pub reason_if : Bool → Message → Message → Message
  reason_if false reason reasons = reasons
  reason_if true reason reasons = reasons ++ text "; " ∷ reason

  unfoldable pub reasons_for : Priority → PriorityFactors → Message
  reasons_for Priority.critical f =
      reason_if (lt (decimal 15 1) f.user_tier_multiplier) (text "High-tier user request" ∷ []) (
        reason_if (ltb 300 f.age_seconds) (text "Task has been waiting for over 5 minutes" ∷ [])
          (text "High priority due to critical nature" ∷ []))
  reasons_for Priority.high f =
      reason_if (lt (decimal 12 1) f.gas_price_ratio)
        (text "Higher gas price indicates urgency" ∷ [])
        (text "Elevated priority for faster processing" ∷ [])
  reasons_for Priority.normal f = text "Standard processing priority" ∷ []
  reasons_for Priority.low f =
      reason_if (lt f.gas_price_ratio (decimal 8 1))
        (text "Lower gas price allows for slower processing" ∷ [])
        (text "Lower priority for cost optimization" ∷ [])

  unfoldable pub generate_reasoning : Priority → PriorityFactors → Message
  unfolding reasons_for
  generate_reasoning p f =
      reason_if (ltb 0 f.retry_count) (text "Retry attempt #" ∷ num f.retry_count ∷ [])
        (reasons_for p f)

  abbrev pub average_of : Option PriorityHistory → Carrier
  average_of none = decimal 300 0
  average_of (some h) = h.average_completion_time

  abbrev pub rate_of : Option PriorityHistory → Carrier
  rate_of none = decimal 95 2
  rate_of (some h) = h.success_rate

  unfoldable pub get_priority_recommendation :
      PriorityCalculator → PriorityFactors → PriorityRecommendation
  unfolding calculate_optimal_priority calculate_confidence_score generate_reasoning
  get_priority_recommendation c f =
      let optimal = calculate_optimal_priority c f in
      let history = lookup (priority_to_string optimal) c.historical_data in
      record {
        recommended_priority = optimal;
        estimated_completion_time = average_of history;
        expected_success_rate = rate_of history;
        confidence_score = calculate_confidence_score f;
        reasoning = generate_reasoning optimal f;
      }
