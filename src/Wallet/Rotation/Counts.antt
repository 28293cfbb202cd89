-- ===== src/Wallet/Rotation/Counts.antt =====
-- What a rotation returns, counts and leaves as it is (src/wallet/rotation.rs).
use express402_relayer.Common.{
  ℕ, suc, ◌+◌, ◌*◌, ◌^◌, ◌<◌, ◌≡◌, refl, ap, ◌∙◌, inl, inr, Bool, true, false, ◌&&◌, Option, none,
  some, List, [], ◌∷◌, ◌==◌, ==_iff, if◌then◌else◌, length, any, count_if, count_if-map, lookup,
  lookup_inserted, lookup_kept, nat_eq, arith, Bool-cases,
}
use express402_relayer.Common.Float.{F64}
use express402_relayer.Types.Error.{Result, ok}
use express402_relayer.Types.Wallet.{WalletInfo, u64}
use express402_relayer.Wallet.Rotation.{
  RotationStrategy, RotationReason, round_robin, least_used, best_performance, load_balanced,
  time_based, random, WalletRotator, WalletRotationStats, rotate_round_robin, rotate_load_balanced,
  sorted_by_key, rotate_least_used, rotate_time_based, rotate_by, rotate_wallets,
  update_rotation_stats, update_all, force_rotation, stats_or_new, rotate_best_performance,
  by_performance, rotate_random, scheduled, with_index,
}
use express402_relayer.Wallet.Rotation.Cover.{
  occurrences, wallets_at, addresses, rotate_from-rounds, sorted_by_key-occurrences,
  by_performance-occurrences,
}

-- A permutation.
abbrev pub Shuffles : (List ℕ → List ℕ) → Type 0
Shuffles shuffle = (l : List ℕ) (a : ℕ) → occurrences a (shuffle l) ≡ occurrences a l

and_false : (b : Bool) → (b && false) ≡ false
and_false true = refl
and_false false = refl

module _ (F : F64) where
  abbrev count_of : Option (WalletRotationStats F) → ℕ
  count_of none = 0
  count_of (some stats) = stats.total_rotations

  -- How often a wallet has been rotated, as the statistics say.
  abbrev pub total_of : WalletRotator F → ℕ → ℕ
  total_of r a = count_of (lookup a r.rotation_stats)

  -- What a rotation leaves as it is.
  abbrev pub Same : WalletRotator F → WalletRotator F → Type 0
  Same r s = (s.wallets ≡ r.wallets) × (s.policy ≡ r.policy)

  stats_or_new-total :
      (o : Option (WalletRotationStats F)) (b : ℕ) (reason : RotationReason)
      → (stats_or_new F o b reason).total_rotations ≡ count_of o
  stats_or_new-total none b reason = refl
  stats_or_new-total (some stats) b reason = refl

  update_rotation_stats-total :
      (r : WalletRotator F) (b a now : ℕ) (reason : RotationReason)
      → total_of (update_rotation_stats F r b reason now) a
        ≡ (if b == a then u64 (total_of r a + 1) else total_of r a)
  unfolding update_rotation_stats
  update_rotation_stats-total r b a now reason = elim (Bool-cases (b == a)) [
    | inl same ↦ rw same (
        ap count_of (lookup_inserted b a _ r.rotation_stats same)
        ∙ ap (λ n. u64 (n + 1))
            (stats_or_new-total (lookup b r.rotation_stats) b reason
              ∙ ap (total_of r) ((==_iff b a).0 same)))
    | inr other ↦ rw other (ap count_of (lookup_kept b a _ r.rotation_stats other))
  ]

  update_all-total :
      (r : WalletRotator F) (l : List ℕ) (reason : RotationReason) (clock : ℕ → ℕ) (a : ℕ)
      → total_of r a < 2 ^ 64
      → total_of (update_all F r l reason clock) a ≡ u64 (total_of r a + occurrences a l)
  unfolding update_all count_if
  update_all-total r [] reason clock a h = omega arith
  update_all-total r (b ∷ l) reason clock a h =
      let step = update_rotation_stats-total r b a (clock 0) reason in
      let small : total_of (update_rotation_stats F r b reason (clock 0)) a < 2 ^ 64 =
        ground arith in
      let rest =
        update_all-total (update_rotation_stats F r b reason (clock 0)) l reason
          (λ i. clock (suc i)) a small in
      elim (Bool-cases (b == a)) [
        | inl same ↦
            let now : total_of (update_rotation_stats F r b reason (clock 0)) a
                ≡ u64 (total_of r a + 1) =
              step ∙ rw same refl in
            rw same (rest ∙ omega arith)
        | inr other ↦
            let now : total_of (update_rotation_stats F r b reason (clock 0)) a ≡ total_of r a =
              step ∙ rw other refl in
            rw other (rest ∙ omega arith)
      ]

  pub update_all-Same :
      (r : WalletRotator F) (l : List ℕ) (reason : RotationReason) (clock : ℕ → ℕ)
      → Same r (update_all F r l reason clock)
  unfolding update_all update_rotation_stats
  update_all-Same r [] reason clock = (refl, refl)
  update_all-Same r (b ∷ l) reason clock =
      let (ws, p) =
        update_all-Same (update_rotation_stats F r b reason (clock 0)) l reason
          (λ i. clock (suc i)) in
      (ws, p)

  -- No rate is a NaN, and the index has room for two more rounds.
  pub record IsReady (r : WalletRotator F) : Type 0 where
    pub numbers : any (λ (w : WalletInfo F). F.is_nan w.success_rate) r.wallets ≡ false
    pub room : r.rotation_index + (length r.wallets + length r.wallets) < 2 ^ 64

  -- What the strategies do: they return each wallet once, and change the index at most.
  abbrev Rotates : WalletRotator F → WalletRotator F × Result (List ℕ) → Type 0
  Rotates r out =
      (i : ℕ) × (l : List ℕ) × (out ≡ (record r { rotation_index = i }, ok l))
      × ((a : ℕ) → occurrences a l ≡ wallets_at F a r.wallets)

  rotate_round_robin-Rotates :
      (r : WalletRotator F) → IsReady r → Rotates r (rotate_round_robin F r r.wallets)
  unfolding rotate_round_robin
  rotate_round_robin-Rotates r v =
      let (l, first, _, each) = rotate_from-rounds F r.wallets r.rotation_index v.room in
      (r.rotation_index + length r.wallets, l, ap (with_index F r) first, each)

  rotate_best_performance-returns :
      (ws : List (WalletInfo F))
      → any (λ (w : WalletInfo F). F.is_nan w.success_rate) ws ≡ false
      → rotate_best_performance F ws ≡ ok (by_performance F ws)
  unfolding rotate_best_performance
  rotate_best_performance-returns ws h = rw (h, and_false) refl

  rotate_by-Rotates :
      (shuffle : List ℕ → List ℕ) (s : RotationStrategy) (r : WalletRotator F)
      → Shuffles shuffle
      → IsReady r
      → Rotates r (rotate_by F shuffle s r)
  unfolding rotate_by rotate_load_balanced rotate_least_used rotate_time_based rotate_random
      rotate_best_performance
  rotate_by-Rotates shuffle round_robin r sh v = rotate_round_robin-Rotates r v
  rotate_by-Rotates shuffle load_balanced r sh v = rotate_round_robin-Rotates r v
  rotate_by-Rotates shuffle least_used r sh v = (
    r.rotation_index,
    sorted_by_key F (λ w. w.total_transactions) r.wallets,
    refl,
    λ a. sorted_by_key-occurrences F (λ w. w.total_transactions) a r.wallets,
  )
  rotate_by-Rotates shuffle time_based r sh v = (
    r.rotation_index,
    sorted_by_key F (λ w. w.last_used) r.wallets,
    refl,
    λ a. sorted_by_key-occurrences F (λ w. w.last_used) a r.wallets,
  )
  rotate_by-Rotates shuffle random r sh v = (
    r.rotation_index,
    shuffle (addresses F r.wallets),
    refl,
    λ a.
        sh (addresses F r.wallets) a
        ∙ count_if-map (λ b. b == a) (λ (w : WalletInfo F). w.address) r.wallets,
  )
  rotate_by-Rotates shuffle best_performance r sh v = (
    r.rotation_index,
    by_performance F r.wallets,
    ap (λ x. (r, x)) (rotate_best_performance-returns r.wallets v.numbers),
    λ a. by_performance-occurrences F a r.wallets,
  )

  -- A rotation of any kind returns every wallet exactly as often as it is registered, and counts one
  -- rotation for it in 64 bits, where no rate is a NaN, the index is far from its limit and the random
  -- order is a permutation.
  pub rotate_wallets-counts :
      (shuffle : List ℕ → List ℕ) (r : WalletRotator F) (clock : ℕ → ℕ) (now a : ℕ)
      → Shuffles shuffle
      → IsReady r
      → total_of r a < 2 ^ 64
      → (l : List ℕ) × ((rotate_wallets F shuffle r clock now).1 ≡ ok l)
        × (occurrences a l ≡ wallets_at F a r.wallets)
        × (total_of (rotate_wallets F shuffle r clock now).0 a
            ≡ u64 (total_of r a + wallets_at F a r.wallets))
  unfolding rotate_wallets
  rotate_wallets-counts shuffle r clock now a sh v h =
      let (i, l, out, each) = rotate_by-Rotates shuffle r.policy.strategy r sh v in
      rw out (
        l,
        refl,
        each a,
        update_all-total (record r { rotation_index = i }) l scheduled clock a h ∙ rw (each a) refl,
      )

  -- Under the same conditions a forced rotation returns the same and counts two rotations for each
  -- wallet.
  force_rotation-counts :
      (shuffle : List ℕ → List ℕ) (r : WalletRotator F) (reason : RotationReason) (clock : ℕ → ℕ)
      (now : ℕ) (later : ℕ → ℕ) (a : ℕ)
      → Shuffles shuffle
      → IsReady r
      → total_of r a < 2 ^ 64
      → (l : List ℕ) × ((force_rotation F shuffle r reason clock now later).1 ≡ ok l)
        × (occurrences a l ≡ wallets_at F a r.wallets)
        × (total_of (force_rotation F shuffle r reason clock now later).0 a
            ≡ u64 (total_of r a + 2 * wallets_at F a r.wallets))
  unfolding force_rotation rotate_wallets
  force_rotation-counts shuffle r reason clock now later a sh v h =
      let (i, l, out, each) = rotate_by-Rotates shuffle r.policy.strategy r sh v in
      let once = record (update_all F (record r { rotation_index = i }) l scheduled clock) {
        last_rotation = now;
      } in
      let first : total_of once a ≡ u64 (total_of r a + occurrences a l) =
        update_all-total (record r { rotation_index = i }) l scheduled clock a h in
      let second : total_of (update_all F once l reason later) a
          ≡ u64 (total_of once a + occurrences a l) =
        update_all-total once l reason later a (omega arith) in
      let total : total_of (update_all F once l reason later) a
          ≡ u64 (total_of r a + 2 * occurrences a l) =
        omega arith in
      rw out (l, refl, each a, total ∙ rw (each a) refl)
