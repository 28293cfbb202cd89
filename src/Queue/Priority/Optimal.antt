-- ===== src/Queue/Priority/Optimal.antt =====
-- Which priority is recommended (src/queue/priority.rs, `calculate_optimal_priority`).
use express402_relayer.Common.{
  ℕ, ◌≡◌, refl, ap, ◌∙◌, ◌⊎◌, Bool, true, false, ltb, if◌then◌else◌, lookup, string_eq, arith,
}
use express402_relayer.Common.Float.{F64}
use express402_relayer.Types.Transaction.{Priority}
use express402_relayer.Queue.Priority.{
  PriorityFactors, PriorityCalculator, new, get_priority_weight, get_priority_multiplier, scale,
  calculate_dynamic_priority, highest, calculate_optimal_priority,
}

module _ (F : F64) where
  open F use {Carrier, of_u64, decimal, mul, lt, le}

  -- Multiplying by `c` keeps the order, as it does for a positive number.
  abbrev pub KeepsOrder : Carrier → Type 0
  KeepsOrder c = (a b : Carrier) → le a b ≡ true → le (mul a c) (mul b c) ≡ true

  scale-le :
      (f : PriorityFactors F) (a b : Carrier)
      → KeepsOrder (decimal 12 1)
      → KeepsOrder (decimal 11 1)
      → KeepsOrder f.user_tier_multiplier
      → KeepsOrder f.network_congestion_multiplier
      → le a b ≡ true
      → le (scale F f a) (scale F f b) ≡ true
  unfolding scale
  scale-le f a b old dear tier busy h = busy _ _ (
      priced (lt (decimal 15 1) f.gas_price_ratio) _ _
        (tier _ _ (aged (ltb 300 f.age_seconds) a b h)))
    where
      aged :
          (t : Bool) (x y : Carrier)
          → le x y ≡ true
          → le (if t then mul x (decimal 12 1) else x) (if t then mul y (decimal 12 1) else y)
            ≡ true
      aged true x y e = old x y e
      aged false x y e = e

      priced :
          (t : Bool) (x y : Carrier)
          → le x y ≡ true
          → le (if t then mul x (decimal 11 1) else x) (if t then mul y (decimal 11 1) else y)
            ≡ true
      priced true x y e = dear x y e
      priced false x y e = e

  highest-critical :
      (low normal high critical : Carrier)
      → le low critical ≡ true
      → le normal critical ≡ true
      → le high critical ≡ true
      → highest F low normal high critical ≡ Priority.critical
  highest-critical low normal high critical a b c = rw (a, b, c) refl

  -- The score of a new manager for a weight and a multiplier.
  abbrev base : ℕ → Carrier → Carrier
  base weight multiplier = mul (of_u64 weight) multiplier

  -- With the weights and multipliers of a new manager and factors that keep the order, as all positive ones
  -- do, the recommendation is Critical whatever the factors are: they scale the four scores alike. The
  -- order of the four base scores, 0.5, 2, 4.5 and 8, is taken from the floating-point numbers.
  pub calculate_optimal_priority-critical :
      (c : PriorityCalculator F) (f : PriorityFactors F)
      → c.priority_manager ≡ new F
      → KeepsOrder (decimal 12 1)
      → KeepsOrder (decimal 11 1)
      → KeepsOrder f.user_tier_multiplier
      → KeepsOrder f.network_congestion_multiplier
      → le (base 1 (decimal 5 1)) (base 4 (decimal 2 0)) ≡ true
      → le (base 2 (decimal 1 0)) (base 4 (decimal 2 0)) ≡ true
      → le (base 3 (decimal 15 1)) (base 4 (decimal 2 0)) ≡ true
      → calculate_optimal_priority F c f ≡ Priority.critical
  unfolding calculate_optimal_priority calculate_dynamic_priority get_priority_weight
      get_priority_multiplier new lookup
  calculate_optimal_priority-critical c f fresh old dear tier busy low normal high =
      ap
        (λ m.
          highest F (calculate_dynamic_priority F m Priority.low f)
            (calculate_dynamic_priority F m Priority.normal f)
            (calculate_dynamic_priority F m Priority.high f)
            (calculate_dynamic_priority F m Priority.critical f))
        fresh
      ∙ highest-critical _ _ _ _ (scale-le f _ _ old dear tier busy low)
          (scale-le f _ _ old dear tier busy normal) (scale-le f _ _ old dear tier busy high)

  module _ (trans : (a b c : Carrier) → le a b ≡ true → le b c ≡ true → le a c ≡ true) where
    highest-le_all :
        (s : Priority → Carrier)
        → ((p q : Priority) → (le (s p) (s q) ≡ true) ⊎ (le (s q) (s p) ≡ true))
        → (le (s Priority.low) (
              s (
                highest F
                  (s Priority.low)
                  (s Priority.normal)
                  (s Priority.high)
                  (s Priority.critical)))
            ≡ true)
          × (le (s Priority.normal) (
                s (
                  highest F
                    (s Priority.low)
                    (s Priority.normal)
                    (s Priority.high)
                    (s Priority.critical)))
              ≡ true)
          × (le (s Priority.high) (
                s (
                  highest F
                    (s Priority.low)
                    (s Priority.normal)
                    (s Priority.high)
                    (s Priority.critical)))
              ≡ true)
          × (le (s Priority.critical) (
                s (
                  highest F
                    (s Priority.low)
                    (s Priority.normal)
                    (s Priority.high)
                    (s Priority.critical)))
              ≡ true)
    highest-le_all s total = ground (
      arith,
      total Priority.low Priority.low,
      total Priority.low Priority.normal,
      total Priority.low Priority.high,
      total Priority.low Priority.critical,
      total Priority.normal Priority.normal,
      total Priority.normal Priority.high,
      total Priority.normal Priority.critical,
      total Priority.high Priority.high,
      total Priority.high Priority.critical,
      total Priority.critical Priority.critical,
      trans (s Priority.critical) (s Priority.normal) (s Priority.high),
      trans (s Priority.critical) (s Priority.low) (s Priority.high),
      trans (s Priority.critical) (s Priority.low) (s Priority.normal),
      trans (s Priority.critical) (s Priority.high) (s Priority.normal),
      trans (s Priority.high) (s Priority.low) (s Priority.normal),
      trans (s Priority.critical) (s Priority.high) (s Priority.low),
      trans (s Priority.critical) (s Priority.normal) (s Priority.low),
      trans (s Priority.high) (s Priority.normal) (s Priority.low),
    )

    highest-le :
        (s : Priority → Carrier)
        → ((p q : Priority) → (le (s p) (s q) ≡ true) ⊎ (le (s q) (s p) ≡ true))
        → (p : Priority)
        → le (s p) (
            s (
              highest F
                (s Priority.low)
                (s Priority.normal)
                (s Priority.high)
                (s Priority.critical)))
          ≡ true
    highest-le s total Priority.low = (highest-le_all s total).0
    highest-le s total Priority.normal = (highest-le_all s total).1
    highest-le s total Priority.high = (highest-le_all s total).2
    highest-le s total Priority.critical = (highest-le_all s total).3

    -- Where the scores can be compared, which is where none is a NaN, the recommended priority has the highest
    -- score.
    calculate_optimal_priority-highest :
        (c : PriorityCalculator F) (f : PriorityFactors F)
        → ((p q : Priority)
            → (le
                  (calculate_dynamic_priority F c.priority_manager p f)
                  (calculate_dynamic_priority F c.priority_manager q f)
                ≡ true)
              ⊎ (le
                    (calculate_dynamic_priority F c.priority_manager q f)
                    (calculate_dynamic_priority F c.priority_manager p f)
                  ≡ true))
        → (p : Priority)
        → le
            (calculate_dynamic_priority F c.priority_manager p f)
            (calculate_dynamic_priority F c.priority_manager (calculate_optimal_priority F c f) f)
          ≡ true
    unfolding calculate_optimal_priority
    calculate_optimal_priority-highest c f total p =
        highest-le (λ q. calculate_dynamic_priority F c.priority_manager q f) total p
