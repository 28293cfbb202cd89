-- ===== src/Wallet/Pool/Total.antt =====
-- A wallet is found whenever one is active (src/wallet/pool.rs, `get_next_wallet`).
use express402_relayer.Common.{
  ℕ, zero, suc, ◌<◌, ◌≡◌, ◌≢◌, refl, sym, ◌∙◌, ◌⊎◌, inl, inr, true, some, List, [], ◌∷◌, ◌==◌,
  ==_iff, any, find, find-any, find-some, length, get_elem?, lookup, nat_eq, Option-cases,
  Bool-cases, arith,
}
use express402_relayer.Common.Float.{F64}
use express402_relayer.Types.Error.{ok, Result}
use express402_relayer.Types.Wallet.{WalletInfo, WalletPoolConfig}
use express402_relayer.Wallet.Pool.{
  WalletPool, RotationStrategy, round_robin, least_used, best_performance, random, new, select,
  get_next_wallet, select_min, select_round_robin, select_least_used, select_random, select_best,
  select_best_performance, success_rate_of, WalletUsageStats,
}
use express402_relayer.Wallet.Pool.Select.{is_in, Usage, select_min-Selects}
use express402_relayer.Wallet.Pool.Invariant.{Call, run, run-new-Inv, is_wallet}

select_min-member :
    (key : WalletUsageStats → ℕ) (usage : Usage) (n a : ℕ) (rest : List ℕ)
    → is_in (a ∷ rest) (select_min key usage a n (a ∷ rest)) ≡ true
unfolding any
select_min-member key usage n a rest = elim (select_min-Selects key usage a n (a ∷ rest)) [
  | inl l ↦ l.member
  | inr (same, _) ↦ ground (arith, same, (==_iff a a).1 refl)
]

get_elem?-member :
    (xs : List ℕ) (i : ℕ)
    → i < length xs
    → (x : ℕ) × (get_elem? xs i ≡ some x) × (is_in xs x ≡ true)
unfolding any
get_elem?-member [] i h = elim h [ ]
get_elem?-member (x ∷ xs) zero h = (x, refl, ground (arith, (==_iff x x).1 refl))
get_elem?-member (x ∷ xs) (suc i) h =
    let (y, e, m) = get_elem?-member xs i (omega arith) in (y, e, ground arith)

module _ (F : F64) where
  open F use {Carrier, lt}

  -- One round of the loop keeps the best wallet or takes the one at hand.
  select_best_step :
      (usage : Usage) (best x : ℕ) (rate : Carrier) (xs : List ℕ)
      → (select_best F usage best rate (x ∷ xs) ≡ select_best F usage best rate xs)
        ⊎ ((r : Carrier) × (select_best F usage best rate (x ∷ xs) ≡ select_best F usage x r xs))
  unfolding select_best
  select_best_step usage best x rate xs = elim (Option-cases (lookup x usage)) [
    | inl e ↦ inl (rw (e, select_best))
    | inr (stats, e) ↦ elim (Bool-cases (lt rate (success_rate_of F stats))) [
      | inl better ↦ inr (success_rate_of F stats, rw (e, select_best) (rw better))
      | inr worse ↦ inl (rw (e, select_best) (rw worse))
    ]
  ]

  is_in-cons : (x y : ℕ) (xs : List ℕ) → (y ≡ x) ⊎ (is_in xs y ≡ true) → is_in (x ∷ xs) y ≡ true
  unfolding any
  is_in-cons x y xs (inl same) = ground (arith, (==_iff x y).1 (sym same))
  is_in-cons x y xs (inr there) = ground arith

  select_best-member :
      (usage : Usage) (best : ℕ) (rate : Carrier) (xs : List ℕ)
      → (select_best F usage best rate xs ≡ best)
        ⊎ (is_in xs (select_best F usage best rate xs) ≡ true)
  unfolding select_best
  select_best-member usage best rate [] = inl refl
  select_best-member usage best rate (x ∷ xs) = elim (select_best_step usage best x rate xs) [
    | inl e ↦ rw e (elim (select_best-member usage best rate xs) [
      | inl kept ↦ inl kept
      | inr there ↦ inr (is_in-cons x _ xs (inr there))
    ])
    | inr (r, e) ↦ rw e (inr (is_in-cons x _ xs (select_best-member usage x r xs)))
  ]

  abbrev pub Member : Result ℕ → List ℕ → Type 0
  Member r xs = (x : ℕ) × (r ≡ ok x) × (is_in xs x ≡ true)

  round_robin-Member :
      (usage : Usage) (now : ℕ) (xs : List ℕ)
      → xs ≢ []
      → Member (select_round_robin usage now xs) xs
  unfolding select_round_robin
  round_robin-Member usage now [] h = absurd (h refl)
  round_robin-Member usage now (a ∷ rest) h = (_, refl, select_min-member _ usage now a rest)

  least_used-Member :
      (usage : Usage) (xs : List ℕ) → xs ≢ [] → Member (select_least_used usage xs) xs
  unfolding select_least_used
  least_used-Member usage [] h = absurd (h refl)
  least_used-Member usage (a ∷ rest) h = (_, refl, select_min-member _ usage _ a rest)

  best_performance-Member :
      (usage : Usage) (xs : List ℕ) → xs ≢ [] → Member (select_best_performance F usage xs) xs
  unfolding select_best_performance
  best_performance-Member usage [] h = absurd (h refl)
  best_performance-Member usage (a ∷ rest) h = (
    _,
    refl,
    elim (select_best-member usage a _ (a ∷ rest)) [
      | inl kept ↦ is_in-cons a _ rest (inl kept)
      | inr there ↦ there
    ],
  )

  -- Each strategy selects an active wallet; the draw of the generator is in its range.
  pub select-Member :
      (strategy : RotationStrategy) (p : WalletPool F) (now draw : ℕ)
      → p.active_wallets ≢ []
      → draw < length p.active_wallets
      → Member (select F strategy p now draw) p.active_wallets
  unfolding select select_random
  select-Member round_robin p now draw some_active h =
      round_robin-Member p.wallet_usage now p.active_wallets some_active
  select-Member least_used p now draw some_active h =
      least_used-Member p.wallet_usage p.active_wallets some_active
  select-Member best_performance p now draw some_active h =
      best_performance-Member p.wallet_usage p.active_wallets some_active
  select-Member random p now draw some_active h =
      let (x, e, m) = get_elem?-member p.active_wallets draw h in (x, ground arith, m)

  get_next_wallet_of :
      (p : WalletPool F) (now draw x : ℕ) (w : WalletInfo F)
      → p.active_wallets ≢ []
      → select F p.rotation_strategy p now draw ≡ ok x
      → find (λ (v : WalletInfo F). v.address == x) p.wallets ≡ some w
      → get_next_wallet F p now draw ≡ ok (some w)
  unfolding get_next_wallet
  get_next_wallet_of p now draw x w some_active e found = ground arith

  -- Whatever calls were made on a new pool, and under every strategy, `get_next_wallet` gives an
  -- active wallet if there is one: it neither panics nor misses the wallet of the address that it
  -- selects. (The draw of the generator is within its range.)
  pub get_next_wallet-active :
      (config : WalletPoolConfig) (cs : List (Call F)) (now draw : ℕ)
      → (run F (new F config) cs).active_wallets ≢ []
      → draw < length (run F (new F config) cs).active_wallets
      → (w : WalletInfo F) × (get_next_wallet F (run F (new F config) cs) now draw ≡ ok (some w))
        × (is_in (run F (new F config) cs).active_wallets w.address ≡ true)
  get_next_wallet-active config cs now draw some_active h =
      let p : WalletPool F = run F (new F config) cs in
      let (x, picked, member) = select-Member p.rotation_strategy p now draw some_active h in
      let there : is_wallet F p.wallets x ≡ true =
        sym ((run-new-Inv F config cs).has_wallet x) ∙ member in
      let (w, found) = find-any _ p.wallets there in
      let same : w.address ≡ x = (==_iff w.address x).0 (find-some _ p.wallets w found) in
      (w, get_next_wallet_of p now draw x w some_active picked found, rw same member)
