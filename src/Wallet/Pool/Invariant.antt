-- ===== src/Wallet/Pool/Invariant.antt =====
-- The three tables of the pool (src/wallet/pool.rs): every call keeps them about the same wallets, so
-- that a wallet can be selected whenever one is active.
use express402_relayer.Common.{
  ℕ, ◌≡◌, refl, sym, subst, ◌∙◌, ◌⊎◌, inl, inr, Bool, true, false, not, ◌||◌, Option, none, some,
  List, [], ◌∷◌, ◌++◌, ◌==◌, ==_iff, if◌then◌else◌, any, any-append, retain, Map, lookup, remove,
  update, update_first, nat_eq, contains_key, Bool-cases, lookup-update, lookup-remove,
  contains_key-insert, arith,
}
use express402_relayer.Common.Float.{F64}
use express402_relayer.Types.Error.{Message, Result-cases}
use express402_relayer.Types.Wallet.{WalletInfo, WalletPoolConfig, new_wallet, record_transaction}
use express402_relayer.Wallet.Pool.{
  WalletPool, RotationStrategy, new, acquire_wallet, get_next_wallet, update_wallet_usage,
  WalletUsageStats, add_wallet, remove_wallet, release_wallet, set_rotation_strategy,
}
use express402_relayer.Wallet.Pool.Select.{is_in}

module _ (F : F64) where
  abbrev pub is_wallet : List (WalletInfo F) → ℕ → Bool
  is_wallet wallets a = any (λ (w : WalletInfo F). w.address == a) wallets

  -- An address is active exactly when the pool has a wallet of it and counts its usage.
  pub record Inv (p : WalletPool F) : Type 0 where
    pub has_wallet : (a : ℕ) → is_in p.active_wallets a ≡ is_wallet p.wallets a
    pub has_usage : (a : ℕ) → is_in p.active_wallets a ≡ contains_key a p.wallet_usage

  -- The public calls that change the pool.
  pub data Call : Type 0 where
    adds : ℕ → ℕ → ℕ → ℕ → Call
    removes : ℕ → Call
    acquires : Option Message → ℕ → ℕ → ℕ → Call
    releases : ℕ → Bool → ℕ → ℕ → ℕ → Call
    sets : RotationStrategy → Call

  unfoldable pub step : WalletPool F → Call → WalletPool F
  step p (adds address key t u) = (add_wallet F p address key t u).0
  step p (removes address) = remove_wallet F p address
  step p (acquires closed now draw used) = (acquire_wallet F p closed now draw used).0
  step p (releases address success gas t u) = release_wallet F p address success gas t u
  step p (sets strategy) = set_rotation_strategy F p strategy

  unfoldable pub run : WalletPool F → List Call → WalletPool F
  unfolding step
  run p [] = p
  run p (c ∷ cs) = run (step p c) cs

  contains_key-update :
      (k j : ℕ) (f : WalletUsageStats → WalletUsageStats) (m : Map ℕ WalletUsageStats)
      → contains_key j (update k f m) ≡ contains_key j m
  unfolding contains_key
  contains_key-update k j f m = ground (arith, lookup-update k j f m)

  contains_key-remove :
      (k j : ℕ) (m : Map ℕ WalletUsageStats)
      → contains_key j (remove k m) ≡ (if k == j then false else contains_key j m)
  unfolding contains_key
  contains_key-remove k j m = ground (arith, lookup-remove k j m)

  is_in-retain :
      (k j : ℕ) (xs : List ℕ)
      → is_in (retain (λ a. not (a == k)) xs) j ≡ (if k == j then false else is_in xs j)
  unfolding any retain
  is_in-retain k j [] = ground arith
  is_in-retain k j (x ∷ xs) = ground (arith, is_in-retain k j xs)

  is_wallet-retain :
      (k j : ℕ) (xs : List (WalletInfo F))
      → is_wallet (retain (λ (w : WalletInfo F). not (w.address == k)) xs) j
        ≡ (if k == j then false else is_wallet xs j)
  unfolding any retain
  is_wallet-retain k j [] = ground arith
  is_wallet-retain k j (x ∷ xs) = ground (arith, is_wallet-retain k j xs)

  address-record_transaction :
      (w : WalletInfo F) (success : Bool) (now : ℕ)
      → (record_transaction F w success now).address ≡ w.address
  unfolding record_transaction
  address-record_transaction w success now = ground arith

  is_wallet-update_first :
      (k j : ℕ) (success : Bool) (now : ℕ) (xs : List (WalletInfo F))
      → is_wallet
          (update_first
            (λ (w : WalletInfo F). w.address == k)
            (λ w. record_transaction F w success now)
            xs)
          j
        ≡ is_wallet xs j
  unfolding any update_first
  is_wallet-update_first k j success now [] = refl
  is_wallet-update_first k j success now (x ∷ xs) =
      ground
        (arith, is_wallet-update_first k j success now xs, address-record_transaction x success now)

  is_in-add :
      (k j : ℕ) (xs : List ℕ)
      → is_in (if any (λ a. a == k) xs then xs else xs ++ k ∷ []) j ≡ (is_in xs j || k == j)
  unfolding any
  is_in-add k j xs = elim (Bool-cases (any (λ a. a == k) xs)) [
    | inl there ↦
        let again : k ≡ j → is_in xs j ≡ true = λ same. rw (← same) there in
        rw there (ground (arith, again, ==_iff k j))
    | inr new_one ↦ rw new_one (ground (arith, any-append (λ b. b == j) xs (k ∷ [])))
  ]

  add_wallet-Inv : (p : WalletPool F) (a key t u : ℕ) → Inv p → Inv (add_wallet F p a key t u).0
  unfolding add_wallet any
  add_wallet-Inv p a key t u v = record {
    has_wallet = λ j. ground (
      arith,
      is_in-add a j p.active_wallets,
      v.has_wallet j,
      any-append (λ (w : WalletInfo F). w.address == j) p.wallets (new_wallet F a key t ∷ []),
    );
    has_usage = λ j. simp (contains_key-insert, is_in-add) (ground (arith, v.has_usage j));
  }

  remove_wallet-Inv : (p : WalletPool F) (a : ℕ) → Inv p → Inv (remove_wallet F p a)
  unfolding remove_wallet
  remove_wallet-Inv p a v = record {
    has_wallet = λ j.
        ground (
          arith,
          is_in-retain a j p.active_wallets,
          is_wallet-retain a j p.wallets,
          v.has_wallet j,
        );
    has_usage = λ j. ground (
      arith,
      is_in-retain a j p.active_wallets,
      contains_key-remove a j p.wallet_usage,
      v.has_usage j,
    );
  }

  update_wallet_usage-Inv :
      (p : WalletPool F) (a used : ℕ) → Inv p → Inv (update_wallet_usage F p a used)
  unfolding update_wallet_usage
  update_wallet_usage-Inv p a used v = record {
    has_wallet = v.has_wallet;
    has_usage = λ j. v.has_usage j ∙ sym (contains_key-update a j _ p.wallet_usage);
  }

  -- `acquire_wallet` changes nothing but the time at which one wallet was used.
  acquire_wallet_cases :
      (p : WalletPool F) (now draw used : ℕ)
      → ((acquire_wallet F p none now draw used).0 ≡ p)
        ⊎ ((a : ℕ) × ((acquire_wallet F p none now draw used).0 ≡ update_wallet_usage F p a used))
  unfolding acquire_wallet
  acquire_wallet_cases p now draw used = elim (Result-cases (get_next_wallet F p now draw)) [
    | inl (none, e) ↦ inl (rw (e, acquire_wallet))
    | inl (some w, e) ↦ inr (w.address, rw (e, acquire_wallet))
    | inr (inl (x, e)) ↦ inl (rw (e, acquire_wallet))
    | inr (inr e) ↦ inl (rw (e, acquire_wallet))
  ]

  acquire_wallet-Inv :
      (p : WalletPool F) (closed : Option Message) (now draw used : ℕ)
      → Inv p
      → Inv (acquire_wallet F p closed now draw used).0
  unfolding acquire_wallet
  acquire_wallet-Inv p (some e) now draw used v = v
  acquire_wallet-Inv p none now draw used v = elim (acquire_wallet_cases p now draw used) [
    | inl same ↦ subst Inv (sym same) v
    | inr (a, e) ↦ subst Inv (sym e) (update_wallet_usage-Inv p a used v)
  ]

  release_wallet-Inv :
      (p : WalletPool F) (a : ℕ) (success : Bool) (gas t u : ℕ)
      → Inv p
      → Inv (release_wallet F p a success gas t u)
  unfolding release_wallet
  release_wallet-Inv p a success gas t u v = record {
    has_wallet = λ j. v.has_wallet j ∙ sym (is_wallet-update_first a j success t p.wallets);
    has_usage = λ j. v.has_usage j ∙ sym (contains_key-update a j _ p.wallet_usage);
  }

  Step-Inv : (p : WalletPool F) (c : Call) → Inv p → Inv (step p c)
  unfolding step set_rotation_strategy
  Step-Inv p (adds a key t u) v = add_wallet-Inv p a key t u v
  Step-Inv p (removes a) v = remove_wallet-Inv p a v
  Step-Inv p (acquires closed now draw used) v = acquire_wallet-Inv p closed now draw used v
  Step-Inv p (releases a success gas t u) v = release_wallet-Inv p a success gas t u v
  Step-Inv p (sets strategy) v = record { has_wallet = v.has_wallet; has_usage = v.has_usage }

  run-Inv : (p : WalletPool F) (cs : List Call) → Inv p → Inv (run p cs)
  unfolding run
  run-Inv p [] v = v
  run-Inv p (c ∷ cs) v = run-Inv (step p c) cs (Step-Inv p c v)

  new-Inv : (config : WalletPoolConfig) → Inv (new F config)
  unfolding new any contains_key lookup
  new-Inv config = record { has_wallet = λ a. refl; has_usage = λ a. refl }

  -- After any calls on a new pool, an address is active exactly when the pool has a wallet of that
  -- address, and exactly when it counts its usage.
  pub run-new-Inv : (config : WalletPoolConfig) (cs : List Call) → Inv (run (new F config) cs)
  run-new-Inv config cs = run-Inv (new F config) cs (new-Inv config)
