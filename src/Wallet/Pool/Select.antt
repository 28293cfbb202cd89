-- ===== src/Wallet/Pool/Select.antt =====
-- Which wallet the strategies select (src/wallet/pool.rs, `select_round_robin`, `select_least_used`).
use express402_relayer.Common.{
  ℕ, ◌-◌, ◌^◌, ◌≤◌, ◌<◌, ◌≡◌, refl, ap, lt→ltb, le→ltb, ◌⊎◌, inl, inr, Bool, true, none, some, List,
  [], ◌∷◌, ◌==◌, ==_iff, any, All, Map, lookup, nat_eq, Option-cases, Bool-cases, arith,
}
use native.Mathlib.Nat.{le_trans, le_refl}
use native.Mathlib.Decide.{dec_lt}
use express402_relayer.Types.Error.{ok}
use express402_relayer.Wallet.Pool.{
  WalletUsageStats, select_min, select_round_robin, select_least_used,
}

abbrev pub Usage : Type 0
Usage = Map ℕ WalletUsageStats

abbrev pub is_in : List ℕ → ℕ → Bool
is_in addresses a = any (λ b. b == a) addresses

-- No key of the wallet, if it has one, is below `n`.
abbrev pub KeyAtLeast : (WalletUsageStats → ℕ) → Usage → ℕ → ℕ → Type 0
KeyAtLeast key usage n a = (stats : WalletUsageStats) → lookup a usage ≡ some stats → n ≤ key stats

-- The wallet `x` has a key below `n`, and none of `addresses` has a smaller one.
pub record IsLeast (key : WalletUsageStats → ℕ) (usage : Usage) (n : ℕ) (addresses : List ℕ) (x : ℕ)
    : Type 0 where
  pub stats : WalletUsageStats
  pub found : lookup x usage ≡ some stats
  pub below : key stats < n
  pub member : is_in addresses x ≡ true
  pub least : All (KeyAtLeast key usage (key stats)) addresses

module _ (key : WalletUsageStats → ℕ) (usage : Usage) where
  -- One round of the loop.
  unknown_wallet :
      (best n a : ℕ) (rest : List ℕ)
      → lookup a usage ≡ none
      → select_min key usage best n (a ∷ rest) ≡ select_min key usage best n rest
  unfolding select_min
  unknown_wallet best n a rest e = rw (e, select_min)

  smaller_key :
      (best n a : ℕ) (rest : List ℕ) (stats : WalletUsageStats)
      → lookup a usage ≡ some stats
      → key stats < n
      → select_min key usage best n (a ∷ rest) ≡ select_min key usage a (key stats) rest
  unfolding select_min
  smaller_key best n a rest stats e h = rw (e, select_min) (rw (lt→ltb (key stats) n h))

  no_smaller_key :
      (best n a : ℕ) (rest : List ℕ) (stats : WalletUsageStats)
      → lookup a usage ≡ some stats
      → n ≤ key stats
      → select_min key usage best n (a ∷ rest) ≡ select_min key usage best n rest
  unfolding select_min
  no_smaller_key best n a rest stats e h = rw (e, select_min) (rw (le→ltb (key stats) n h))

  KeyAtLeast-of :
      (n a : ℕ) (stats : WalletUsageStats)
      → lookup a usage ≡ some stats
      → n ≤ key stats
      → KeyAtLeast key usage n a
  KeyAtLeast-of n a stats e h t f =
      let same : stats ≡ t = ground arith in omega (arith, ap key same)

  KeyAtLeast-mono :
      (m n : ℕ) → m ≤ n → (a : ℕ) → KeyAtLeast key usage n a → KeyAtLeast key usage m a
  KeyAtLeast-mono m n h a k t e = le_trans h (k t e)

  IsLeast-cons :
      (n a x : ℕ) (rest : List ℕ)
      → (least : IsLeast key usage n rest x) → KeyAtLeast key usage n a
      → IsLeast key usage n (a ∷ rest) x
  unfolding any
  IsLeast-cons n a x rest l h = record {
    stats = l.stats;
    found = l.found;
    below = l.below;
    member = ground (arith, l.member);
    least = (KeyAtLeast-mono _ n (omega arith) a h, l.least);
  }

  -- The loop keeps its candidate, or ends on a wallet of least key.
  abbrev pub Selects : ℕ → ℕ → List ℕ → ℕ → Type 0
  Selects best n addresses x =
      IsLeast key usage n addresses x ⊎ ((x ≡ best) × All (KeyAtLeast key usage n) addresses)

  take_smaller :
      (best n a x : ℕ) (rest : List ℕ) (stats : WalletUsageStats)
      → lookup a usage ≡ some stats
      → key stats < n
      → Selects a (key stats) rest x
      → Selects best n (a ∷ rest) x
  unfolding any
  take_smaller best n a x rest stats e h (inl l) = inl (record {
    stats = l.stats;
    found = l.found;
    below = omega (arith, l.below);
    member = ground (arith, l.member);
    least = (KeyAtLeast-of _ a stats e (omega (arith, l.below)), l.least);
  })
  take_smaller best n a x rest stats e h (inr (same, k)) = inl (record {
    stats = stats;
    found = rw same e;
    below = h;
    member = rw (same, (==_iff a a).1 refl);
    least = (KeyAtLeast-of _ a stats e (le_refl _), k);
  })

  keep_best :
      (best n a x : ℕ) (rest : List ℕ)
      → KeyAtLeast key usage n a
      → Selects best n rest x
      → Selects best n (a ∷ rest) x
  keep_best best n a x rest h (inl l) = inl (IsLeast-cons n a x rest l h)
  keep_best best n a x rest h (inr (same, k)) = inr (same, (h, k))

  pub select_min-Selects :
      (best n : ℕ) (addresses : List ℕ)
      → Selects best n addresses (select_min key usage best n addresses)
  unfolding select_min
  select_min-Selects best n [] = inr (refl, tt)
  select_min-Selects best n (a ∷ rest) = elim (Option-cases (lookup a usage)) [
    | inl e ↦
        rw (unknown_wallet best n a rest e)
          (keep_best best n a _ rest (λ t f. cc) (select_min-Selects best n rest))
    | inr (stats, e) ↦ elim (dec_lt (key stats) n) [
      | yes h ↦
          rw (smaller_key best n a rest stats e h)
            (take_smaller best n a _ rest stats e h (select_min-Selects a (key stats) rest))
      | no h ↦ rw (no_smaller_key best n a rest stats e (omega arith)) (
          keep_best best n a _ rest (KeyAtLeast-of n a stats e (omega arith))
            (select_min-Selects best n rest))
    ]
  ]

All-is_in {κ} : (P : ℕ → Type κ) (xs : List ℕ) (a : ℕ) → All P xs → is_in xs a ≡ true → P a
unfolding any
All-is_in P [] a h e = cc
All-is_in P (x ∷ xs) a h e = elim (Bool-cases (x == a)) [
  | inl same ↦ rw (← ((==_iff x a).0 same)) h.0
  | inr other ↦ All-is_in P xs a h.1 (ground arith)
]

-- Of the active wallets that have been used before `now`, the round robin selects one that has been
-- idle the longest: it is active, and no other was used earlier.
pub select_round_robin-oldest :
    (usage : Usage) (now : ℕ) (addresses : List ℕ) (x b : ℕ) (sb : WalletUsageStats)
    → select_round_robin usage now addresses ≡ ok x
    → is_in addresses b ≡ true
    → lookup b usage ≡ some sb
    → sb.last_used < now
    → (sx : WalletUsageStats) × (lookup x usage ≡ some sx)
      × (is_in addresses x ≡ true)
      × (sx.last_used ≤ sb.last_used)
unfolding select_round_robin
select_round_robin-oldest usage now [] x b sb e active known used = cc
select_round_robin-oldest usage now (a ∷ rest) x b sb e active known used =
    let chosen : select_min (λ s. s.last_used) usage a now (a ∷ rest) ≡ x = ground arith in
    elim (select_min-Selects (λ s. s.last_used) usage a now (a ∷ rest)) [
      | inl l ↦ (
        l.stats,
        rw (← chosen) l.found,
        rw (← chosen) l.member,
        All-is_in _ (a ∷ rest) b l.least active sb known,
      )
      | inr (_, none_used) ↦
          absurd (omega (arith, All-is_in _ (a ∷ rest) b none_used active sb known))
    ]

-- Of the active wallets with fewer than 2 ^ 64 - 1 transactions, `select_least_used` selects one with the
-- fewest: it is active, and no other has fewer.
select_least_used-fewest :
    (usage : Usage) (addresses : List ℕ) (x b : ℕ) (sb : WalletUsageStats)
    → select_least_used usage addresses ≡ ok x
    → is_in addresses b ≡ true
    → lookup b usage ≡ some sb
    → sb.total_transactions < 2 ^ 64 - 1
    → (sx : WalletUsageStats) × (lookup x usage ≡ some sx)
      × (is_in addresses x ≡ true)
      × (sx.total_transactions ≤ sb.total_transactions)
unfolding select_least_used
select_least_used-fewest usage [] x b sb e active known used = cc
select_least_used-fewest usage (a ∷ rest) x b sb e active known used =
    let chosen : select_min (λ s. s.total_transactions) usage a (2 ^ 64 - 1) (a ∷ rest) ≡ x =
      ground arith in
    elim (select_min-Selects (λ s. s.total_transactions) usage a (2 ^ 64 - 1) (a ∷ rest)) [
      | inl l ↦ (
        l.stats,
        rw (← chosen) l.found,
        rw (← chosen) l.member,
        All-is_in _ (a ∷ rest) b l.least active sb known,
      )
      | inr (_, none_used) ↦
          absurd (omega (arith, All-is_in _ (a ∷ rest) b none_used active sb known))
    ]
