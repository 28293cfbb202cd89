-- ===== src/Wallet/Rotation/Decision.antt =====
-- When a rotation is due, and in which order the wallets come out (src/wallet/rotation.rs).
use express402_relayer.Common.{
  ℕ, suc, ◌+◌, ◌^◌, ◌<◌, ◌≡◌, refl, sym, ap, ◌∙◌, Bool, true, ◌||◌, List, [], ◌∷◌, ltb, length, any,
  All, map, sort_by, IsSorted, IsOrder, sort_by-IsSorted, count_if, count_if-sort_by, count_if-map,
  nat_eq, arith,
}
use express402_relayer.Common.Float.{F64}
use express402_relayer.Types.Error.{Answer, answered, Result, ok, err, panic}
use express402_relayer.Types.Wallet.{WalletInfo}
use express402_relayer.Wallet.Rotation.{
  RotationStrategy, RotationReason, RotationPolicy, round_robin, least_used, best_performance,
  load_balanced, time_based, random, WalletRotator, rotate_round_robin, sorted_by_key,
  rotate_least_used, rotate_from, rotate_by, rotate_wallets, update_rotation_stats, update_all,
  scheduled, after_rotation, with_index, should_rotate, check_performance_rotation,
  check_load_rotation,
}
use express402_relayer.Wallet.Rotation.Cover.{rotate_from-rounds}
use express402_relayer.Wallet.Rotation.Counts.{Same, update_all-Same}

abbrev by_count : ℕ × ℕ → ℕ × ℕ → Bool
by_count p q = ltb p.1 q.1

by_count-IsOrder : IsOrder (λ _. Unit {0}) by_count
by_count-IsOrder = record {
  asym = λ a b _ _ h. ground arith;
  trans = λ a b c _ _ _ h k. ground arith;
}

All-trivial {ℓ} : {A : Type ℓ} (xs : List A) → All (λ _. Unit {0}) xs
All-trivial [] = tt
All-trivial (x ∷ xs) = (tt, All-trivial xs)

module _ (F : F64) where
  rotate_by-Same :
      (shuffle : List ℕ → List ℕ) (s : RotationStrategy) (r : WalletRotator F)
      → Same F r (rotate_by F shuffle s r).0
  unfolding rotate_by rotate_round_robin
  rotate_by-Same shuffle round_robin r = (refl, refl)
  rotate_by-Same shuffle load_balanced r = (refl, refl)
  rotate_by-Same shuffle least_used r = (refl, refl)
  rotate_by-Same shuffle time_based r = (refl, refl)
  rotate_by-Same shuffle random r = (refl, refl)
  rotate_by-Same shuffle best_performance r = (refl, refl)

  after_rotation-Same :
      (r : WalletRotator F) (out : WalletRotator F × Result (List ℕ)) (clock : ℕ → ℕ) (now : ℕ)
      → Same F r out.0
      → Same F r (after_rotation F out clock now).0
  after_rotation-Same r (s, ok l) clock now (ws, p) =
      let (ws', p') = update_all-Same F s l scheduled clock in (ws' ∙ ws, p' ∙ p)
  after_rotation-Same r (s, err e) clock now h = h
  after_rotation-Same r (s, panic) clock now h = h

  -- Rotations one after the other, each with what it draws and reads.
  unfoldable pub rotate_often :
      WalletRotator F → List ((List ℕ → List ℕ) × (ℕ → ℕ) × ℕ) → WalletRotator F
  rotate_often r [] = r
  rotate_often r ((shuffle, clock, now) ∷ rest) =
      rotate_often (rotate_wallets F shuffle r clock now).0 rest

  rotate_often-Same :
      (r : WalletRotator F) (calls : List ((List ℕ → List ℕ) × (ℕ → ℕ) × ℕ))
      → Same F r (rotate_often r calls)
  unfolding rotate_often rotate_wallets
  rotate_often-Same r [] = (refl, refl)
  rotate_often-Same r ((shuffle, clock, now) ∷ rest) =
      let once =
        after_rotation-Same r (rotate_by F shuffle r.policy.strategy r) clock now
          (rotate_by-Same shuffle r.policy.strategy r) in
      let (ws, p) = rotate_often-Same (rotate_wallets F shuffle r clock now).0 rest in
      (ws ∙ once.0, p ∙ once.1)

  checks-Same :
      (r s : WalletRotator F)
      → s.wallets ≡ r.wallets
      → s.policy ≡ r.policy
      → (check_performance_rotation F s || check_load_rotation F s)
        ≡ (check_performance_rotation F r || check_load_rotation F r)
  unfolding check_performance_rotation check_load_rotation
  checks-Same r s ws p =
      ap (λ (l : List (WalletInfo F)). asks s.policy l) ws
      ∙ ap (λ (q : RotationPolicy F). asks q r.wallets) p
    where
      asks : RotationPolicy F → List (WalletInfo F) → Bool
      asks q l =
          any (λ (w : WalletInfo F). F.lt w.success_rate q.performance_threshold) l
          || any (λ (w : WalletInfo F). ltb q.max_usage_before_rotation w.total_transactions) l

  -- A wallet whose rate is under the threshold of the policy, or that has sent more than the maximum, makes
  -- every later `should_rotate` ask for a rotation, however many rotations have been made since.
  should_rotate-stays :
      (from_std : ℕ → Answer ℕ) (r : WalletRotator F)
      (calls : List ((List ℕ → List ℕ) × (ℕ → ℕ) × ℕ)) (now interval : ℕ)
      → from_std r.policy.interval ≡ answered interval
      → (check_performance_rotation F r || check_load_rotation F r) ≡ true
      → should_rotate F from_std (rotate_often r calls) now ≡ ok true
  unfolding should_rotate
  should_rotate-stays from_std r calls now interval e h =
      let (ws, p) = rotate_often-Same r calls in
      let e' : from_std (rotate_often r calls).policy.interval ≡ answered interval =
        ap (λ (q : RotationPolicy F). from_std q.interval) p ∙ e in
      let h' = checks-Same r (rotate_often r calls) ws p ∙ h in ground arith

  update_all-index :
      (r : WalletRotator F) (l : List ℕ) (reason : RotationReason) (clock : ℕ → ℕ)
      → (update_all F r l reason clock).rotation_index ≡ r.rotation_index
  unfolding update_all update_rotation_stats
  update_all-index r [] reason clock = refl
  update_all-index r (a ∷ l) reason clock =
      update_all-index (update_rotation_stats F r a reason (clock 0)) l reason (λ i. clock (suc i))

  -- What a round robin returns and leaves, where the loop is known to return.
  round_robin_lem :
      (shuffle : List ℕ → List ℕ) (r : WalletRotator F) (clock : ℕ → ℕ) (now i : ℕ) (l : List ℕ)
      → r.policy.strategy ≡ round_robin
      → rotate_from F (length r.wallets) r.rotation_index r.wallets ≡ (i, ok l)
      → ((rotate_wallets F shuffle r clock now).1 ≡ ok l)
        × ((rotate_wallets F shuffle r clock now).0.rotation_index ≡ i)
  unfolding rotate_wallets rotate_by rotate_round_robin
  round_robin_lem shuffle r clock now i l robin goes =
      let out : rotate_by F shuffle r.policy.strategy r ≡ (record r { rotation_index = i }, ok l) =
        ap (λ z. rotate_by F shuffle z r) robin ∙ ap (with_index F r) goes in
      rw out (refl, update_all-index (record r { rotation_index = i }) l scheduled clock)

  -- The round robin does not rotate: over the same wallets each rotation returns the addresses in the order
  -- of the one before, as long as the index is far from its limit.
  pub rotate_wallets-repeats :
      (shuffle shuffle' : List ℕ → List ℕ) (r : WalletRotator F) (clock clock' : ℕ → ℕ)
      (now now' : ℕ)
      → r.policy.strategy ≡ round_robin
      → r.rotation_index + (length r.wallets + length r.wallets) < 2 ^ 64
      → (rotate_wallets F shuffle' (rotate_wallets F shuffle r clock now).0 clock' now').1
        ≡ (rotate_wallets F shuffle r clock now).1
  unfolding rotate_often
  rotate_wallets-repeats shuffle shuffle' r clock clock' now now' robin room =
      let (l, first, second, _) = rotate_from-rounds F r.wallets r.rotation_index room in
      let (ws, p) = rotate_often-Same r ((shuffle, clock, now) ∷ []) in
      let (out, index) =
        round_robin_lem shuffle r clock now (r.rotation_index + length r.wallets) l robin first in
      let s = (rotate_wallets F shuffle r clock now).0 in
      let again : rotate_from F (length s.wallets) s.rotation_index s.wallets
          ≡ (r.rotation_index + length r.wallets + length r.wallets, ok l) =
        ap (λ (w : List (WalletInfo F)). rotate_from F (length w) s.rotation_index w) ws
        ∙ ap (λ j. rotate_from F (length r.wallets) j r.wallets) index
        ∙ second in
      (round_robin_lem shuffle' s clock' now' _ l
        (ap (λ (q : RotationPolicy F). q.strategy) p ∙ robin) again).0
      ∙ sym out

  -- Under `LeastUsed` a rotation returns the addresses of the wallets in ascending order of their use: the
  -- pairs of an address and a count that it goes through are those of the wallets, and none stands behind
  -- one with a larger count.
  rotate_least_used-ascending :
      (ws : List (WalletInfo F))
      → (pairs : List (ℕ × ℕ)) × (rotate_least_used F ws ≡ map (λ (p : ℕ × ℕ). p.0) pairs)
        × IsSorted (λ (p q : ℕ × ℕ). ltb p.1 q.1) pairs
        × ((p : ℕ × ℕ → Bool)
            → count_if p pairs
              ≡ count_if (λ (w : WalletInfo F). p (w.address, w.total_transactions)) ws)
  unfolding rotate_least_used sorted_by_key
  rotate_least_used-ascending ws =
      let pairs = map (λ (w : WalletInfo F). (w.address, w.total_transactions)) ws in
      (
        sort_by by_count pairs,
        refl,
        sort_by-IsSorted (λ _. Unit {0}) by_count by_count-IsOrder pairs (All-trivial pairs),
        λ p.
            count_if-sort_by p by_count pairs
            ∙ count_if-map p (λ (w : WalletInfo F). (w.address, w.total_transactions)) ws,
      )
