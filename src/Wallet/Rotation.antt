-- ===== src/Wallet/Rotation.antt =====
-- src/wallet/rotation.rs: `WalletRotator`. A method takes the state and returns the new one beside its
-- result. `from_std` converts the interval of the policy, `shuffle` is the random permutation of the
-- library, and `clock` gives the successive readings of the clock. The order of the wallets comes from
-- stable sorts; the comparison of two rates panics on a NaN.
mod Cover
mod Counts
mod Decision
mod Tests
use express402_relayer.Common.{
  ℕ, zero, suc, ◌+◌, ◌%◌, Bool, true, false, ◌&&◌, ◌||◌, Option, none, some, List, [], ◌∷◌, ltb,
  leb, if◌then◌else◌, length, any, get_elem?, map, sort_by, Map, lookup, insert, nat_eq,
}
use express402_relayer.Common.Float.{F64}
use express402_relayer.Types.Error.{
  Message, internal, Answer, answered, refused, Result, ok, err, panic, ◌>>=◌,
}
use express402_relayer.Types.Wallet.{WalletInfo, u64}

pub data RotationStrategy : Type 0 where
  round_robin least_used best_performance load_balanced time_based random : RotationStrategy

pub data RotationReason : Type 0 where
  scheduled low_performance high_load error_rate balance_low manual : RotationReason

module _ (F : F64) where
  open F use {Carrier, of_u64, decimal, div, lt, is_nan}

  pub record RotationPolicy : Type 0 where
    pub strategy : RotationStrategy
    pub interval : ℕ
    pub min_usage_before_rotation : ℕ
    pub max_usage_before_rotation : ℕ
    pub performance_threshold : Carrier

  pub record WalletRotationStats : Type 0 where
    pub address : ℕ
    pub total_rotations : ℕ
    pub last_rotation : ℕ
    pub rotation_reason : RotationReason
    pub performance_score : Carrier

  pub record WalletRotator : Type 0 where
    pub wallets : List (WalletInfo F)
    pub rotation_stats : Map ℕ WalletRotationStats
    pub policy : RotationPolicy
    pub last_rotation : ℕ
    pub rotation_index : ℕ

  unfoldable pub new : List (WalletInfo F) → RotationPolicy → ℕ → WalletRotator
  new wallets policy now = record {
    wallets = wallets;
    rotation_stats = [];
    policy = policy;
    last_rotation = now;
    rotation_index = 0;
  }

  unfoldable pub check_performance_rotation : WalletRotator → Bool
  check_performance_rotation r =
      any (λ (w : WalletInfo F). lt w.success_rate r.policy.performance_threshold) r.wallets

  unfoldable pub check_load_rotation : WalletRotator → Bool
  check_load_rotation r =
      any (λ (w : WalletInfo F). ltb r.policy.max_usage_before_rotation w.total_transactions)
        r.wallets

  -- `now - last_rotation > interval` on signed durations.
  unfoldable pub should_rotate : (ℕ → Answer ℕ) → WalletRotator → ℕ → Result Bool
  unfolding check_performance_rotation check_load_rotation
  should_rotate from_std r now = elim (from_std r.policy.interval) [
    | refused m ↦ err (internal m)
    | answered interval ↦
        if ltb (r.last_rotation + interval) now
        then ok true
        else if check_performance_rotation r
        then ok true
        else if check_load_rotation r
        then ok true
        else ok false
  ]

  abbrev pub push_front : ℕ → ℕ × Result (List ℕ) → ℕ × Result (List ℕ)
  push_front address (index, ok rotated) = (index, ok (address ∷ rotated))
  push_front address (index, err e) = (index, err e)
  push_front address (index, panic) = (index, panic)

  -- The loop over `0..wallets.len()` from `index`: the index that is left, and the addresses.
  unfoldable pub rotate_from : ℕ → ℕ → List (WalletInfo F) → ℕ × Result (List ℕ)
  rotate_from zero index wallets = (index, ok [])
  rotate_from (suc rounds) index wallets = elim (get_elem? wallets (index % length wallets)) [
    | none ↦ (index, panic)
    | some w ↦ push_front w.address (rotate_from rounds (u64 (index + 1)) wallets)
  ]

  abbrev pub with_index : WalletRotator → ℕ × Result (List ℕ) → WalletRotator × Result (List ℕ)
  with_index r (index, rotated) = (record r { rotation_index = index }, rotated)

  unfoldable pub rotate_round_robin :
      WalletRotator → List (WalletInfo F) → WalletRotator × Result (List ℕ)
  unfolding rotate_from
  rotate_round_robin r wallets =
      with_index r (rotate_from (length wallets) r.rotation_index wallets)

  unfoldable pub rotate_load_balanced :
      WalletRotator → List (WalletInfo F) → WalletRotator × Result (List ℕ)
  unfolding rotate_round_robin
  rotate_load_balanced r wallets = rotate_round_robin r wallets

  -- The addresses in the order of a stable sort by a number.
  unfoldable pub sorted_by_key : (WalletInfo F → ℕ) → List (WalletInfo F) → List ℕ
  sorted_by_key key wallets =
      map (λ (p : ℕ × ℕ). p.0)
        (sort_by (λ (p q : ℕ × ℕ). ltb p.1 q.1)
          (map (λ (w : WalletInfo F). (w.address, key w)) wallets))

  unfoldable pub rotate_least_used : List (WalletInfo F) → List ℕ
  unfolding sorted_by_key
  rotate_least_used wallets = sorted_by_key (λ w. w.total_transactions) wallets

  unfoldable pub rotate_time_based : List (WalletInfo F) → List ℕ
  unfolding sorted_by_key
  rotate_time_based wallets = sorted_by_key (λ w. w.last_used) wallets

  unfoldable pub by_performance : List (WalletInfo F) → List ℕ
  by_performance wallets =
      map (λ (p : ℕ × Carrier). p.0)
        (sort_by (λ (p q : ℕ × Carrier). lt q.1 p.1)
          (map (λ (w : WalletInfo F). (w.address, w.success_rate)) wallets))

  -- `partial_cmp` with a NaN has no answer, and a sort of two or more elements compares each of them.
  unfoldable pub rotate_best_performance : List (WalletInfo F) → Result (List ℕ)
  unfolding by_performance
  rotate_best_performance wallets =
      if ltb 1 (length wallets) && any (λ (w : WalletInfo F). is_nan w.success_rate) wallets
      then panic
      else ok (by_performance wallets)

  unfoldable pub rotate_random : (List ℕ → List ℕ) → List (WalletInfo F) → List ℕ
  rotate_random shuffle wallets = shuffle (map (λ (w : WalletInfo F). w.address) wallets)

  -- The `match` on the strategy in `rotate_wallets`.
  unfoldable pub rotate_by :
      (List ℕ → List ℕ) → RotationStrategy → WalletRotator → WalletRotator × Result (List ℕ)
  unfolding rotate_round_robin rotate_least_used rotate_best_performance rotate_load_balanced
      rotate_time_based rotate_random
  rotate_by shuffle round_robin r = rotate_round_robin r r.wallets
  rotate_by shuffle least_used r = (r, ok (rotate_least_used r.wallets))
  rotate_by shuffle best_performance r = (r, rotate_best_performance r.wallets)
  rotate_by shuffle load_balanced r = rotate_load_balanced r r.wallets
  rotate_by shuffle time_based r = (r, ok (rotate_time_based r.wallets))
  rotate_by shuffle random r = (r, ok (rotate_random shuffle r.wallets))

  -- `entry(address).or_insert(...)`, whose time and reason are then overwritten.
  abbrev pub stats_or_new : Option WalletRotationStats → ℕ → RotationReason → WalletRotationStats
  stats_or_new (some stats) address reason = stats
  stats_or_new none address reason = record {
    address = address;
    total_rotations = 0;
    last_rotation = 0;
    rotation_reason = reason;
    performance_score = decimal 0 0;
  }

  unfoldable pub update_rotation_stats : WalletRotator → ℕ → RotationReason → ℕ → WalletRotator
  update_rotation_stats r address reason now = record r {
    rotation_stats =
        insert address (counted (stats_or_new (lookup address r.rotation_stats) address reason))
          r.rotation_stats;
  }
    where
      counted : WalletRotationStats → WalletRotationStats
      counted stats = record stats {
        total_rotations = u64 (stats.total_rotations + 1);
        last_rotation = now;
        rotation_reason = reason;
      }

  -- The loops over the rotated addresses.
  unfoldable pub update_all : WalletRotator → List ℕ → RotationReason → (ℕ → ℕ) → WalletRotator
  unfolding update_rotation_stats
  update_all r [] reason clock = r
  update_all r (address ∷ rest) reason clock =
      update_all (update_rotation_stats r address reason (clock 0)) rest reason (λ i. clock (suc i))

  abbrev pub after_rotation :
      WalletRotator × Result (List ℕ) → (ℕ → ℕ) → ℕ → WalletRotator × Result (List ℕ)
  after_rotation (r, ok rotated) clock now =
      (record (update_all r rotated scheduled clock) { last_rotation = now }, ok rotated)
  after_rotation (r, err e) clock now = (r, err e)
  after_rotation (r, panic) clock now = (r, panic)

  unfoldable pub rotate_wallets :
      (List ℕ → List ℕ) → WalletRotator → (ℕ → ℕ) → ℕ → WalletRotator × Result (List ℕ)
  unfolding rotate_by update_all
  rotate_wallets shuffle r clock now =
      after_rotation (rotate_by shuffle r.policy.strategy r) clock now

  abbrev pub after_forced :
      WalletRotator × Result (List ℕ) → RotationReason → (ℕ → ℕ) → WalletRotator × Result (List ℕ)
  after_forced (r, ok rotated) reason clock = (update_all r rotated reason clock, ok rotated)
  after_forced (r, err e) reason clock = (r, err e)
  after_forced (r, panic) reason clock = (r, panic)

  -- `clock` and `now` are read in the rotation, and `later` by the second round of updates.
  unfoldable pub force_rotation :
      (List ℕ → List ℕ)
      → WalletRotator
      → RotationReason
      → (ℕ → ℕ)
      → ℕ
      → (ℕ → ℕ)
      → WalletRotator × Result (List ℕ)
  unfolding rotate_wallets update_all
  force_rotation shuffle r reason clock now later =
      after_forced (rotate_wallets shuffle r clock now) reason later

  unfoldable pub get_rotation_stats : WalletRotator → ℕ → Option WalletRotationStats
  get_rotation_stats r address = lookup address r.rotation_stats

  unfoldable pub get_all_rotation_stats : WalletRotator → List WalletRotationStats
  get_all_rotation_stats r = map (λ (p : ℕ × WalletRotationStats). p.1) r.rotation_stats

  unfoldable pub set_rotation_policy : WalletRotator → RotationPolicy → WalletRotator
  set_rotation_policy r policy = record r { policy = policy }
