-- ===== src/Security/Balance/Fresh.antt =====
-- How old an answer can be (src/security/balance.rs).
use express402_relayer.Common.{
  ℕ, ◌+◌, ◌<◌, ◌≡◌, refl, sym, ap, subst, ◌≢◌, ◌∙◌, ◌⊎◌, inl, inr, Option, none, some, List, [],
  ◌∷◌, ltb, leb, ◌==◌, ==_iff, if◌then◌else◌, lookup, insert, lookup-insert, nat_eq, Bool-cases,
  Option-cases, arith,
}
use express402_relayer.Types.Error.{answered, Answer-cases, Result, ok}
use express402_relayer.Security.Balance.{
  BalanceInfo, BalanceChecker, Reading, new, refresh, check_balance, clear_cache,
  set_min_balance_threshold, set_cache_ttl,
}

pub data Call : Type 0 where
  checks : ℕ → Reading → Call
  clears : Call
  sets_threshold : ℕ → Call
  sets_ttl : ℕ → Call

unfoldable pub step : BalanceChecker → Call → BalanceChecker
step c (checks address r) = (check_balance c address r).0
step c clears = clear_cache c
step c (sets_threshold threshold) = set_min_balance_threshold c threshold
step c (sets_ttl ttl) = set_cache_ttl c ttl

unfoldable pub run : BalanceChecker → List Call → BalanceChecker
unfolding step
run c [] = c
run c (call ∷ calls) = run (step c call) calls

-- What the cache holds for `a` is about `a`.
abbrev pub Keyed : ℕ → Option BalanceInfo → Type 0
Keyed a none = Unit
Keyed a (some info) = info.address ≡ a

abbrev pub IsKeyed : BalanceChecker → ℕ → Type 0
IsKeyed c a = Keyed a (lookup a c.balance_cache)

-- What is stored when the chain answers `balance`.
abbrev pub fetched : BalanceChecker → ℕ → Reading → ℕ → BalanceInfo
fetched c address r balance = record {
  address = address;
  balance = balance;
  last_updated = r.updated;
  is_sufficient = leb c.min_balance_threshold balance;
}

abbrev stored : BalanceChecker → ℕ → BalanceInfo → BalanceChecker
stored c address info = record c { balance_cache = insert address info c.balance_cache }

-- The three outcomes of a check: a remembered balance that is young enough, one that the chain gives
-- now, and the error of the chain.
check_balance-cases :
    (c : BalanceChecker) (a : ℕ) (r : Reading)
    → ((i : BalanceInfo) × (lookup a c.balance_cache ≡ some i)
        × (r.now < i.last_updated + c.cache_ttl)
        × (check_balance c a r ≡ (c, ok i)))
      ⊎ ((b : ℕ) × (r.balance ≡ answered b)
          × (check_balance c a r ≡ (stored c a (fetched c a r b), ok (fetched c a r b))))
      ⊎ ((check_balance c a r).0 ≡ c) × ((i : BalanceInfo) → (check_balance c a r).1 ≢ ok i)
unfolding check_balance refresh
check_balance-cases c a r = elim (Option-cases (lookup a c.balance_cache)) [
  | inr (i, there) ↦ elim (Bool-cases (ltb r.now (i.last_updated + c.cache_ttl))) [
    | inl young ↦ inl (i, there, ground arith, ground (arith, there, young))
    | inr old ↦ elim (Answer-cases r.balance) [
      | inl (b, given) ↦ inr (inl (b, given, ground (arith, there, old, given)))
      | inr (m, given) ↦
          inr (inr (ground (arith, there, old, given), λ j e. ground (arith, there, old, given)))
    ]
  ]
  | inl absent ↦ elim (Answer-cases r.balance) [
    | inl (b, given) ↦ inr (inl (b, given, ground (arith, absent, given)))
    | inr (m, given) ↦
        inr (inr (ground (arith, absent, given), λ j e. ground (arith, absent, given)))
  ]
]

none_not_some : {i : BalanceInfo} → (none ≡ some i) → ⊥
none_not_some e = cc

lookup-stored :
    (c : BalanceChecker) (a b : ℕ) (info : BalanceInfo)
    → lookup b (stored c a info).balance_cache
      ≡ (if a == b then some info else lookup b c.balance_cache)
lookup-stored c a b info = lookup-insert a b info c.balance_cache

stored-IsKeyed :
    (c : BalanceChecker) (a b : ℕ) (info : BalanceInfo)
    → info.address ≡ b
    → IsKeyed c a
    → IsKeyed (stored c b info) a
stored-IsKeyed c a b info named h = elim (Bool-cases (b == a)) [
  | inl same ↦
      let now : lookup a (stored c b info).balance_cache ≡ some info =
        lookup-stored c b a info ∙ ground (arith, same) in
      subst (Keyed a) (sym now) (named ∙ (==_iff b a).0 same)
  | inr other ↦
      let now : lookup a (stored c b info).balance_cache ≡ lookup a c.balance_cache =
        lookup-stored c b a info ∙ ground (arith, other) in
      subst (Keyed a) (sym now) h
]

step-IsKeyed : (c : BalanceChecker) (a : ℕ) (call : Call) → IsKeyed c a → IsKeyed (step c call) a
unfolding step clear_cache set_min_balance_threshold set_cache_ttl lookup
step-IsKeyed c a (checks b r) h = elim (check_balance-cases c b r) [
  | inl (i, there, young, e) ↦
      subst (λ (x : BalanceChecker × Result BalanceInfo). IsKeyed x.0 a) (sym e) h
  | inr (inl (n, given, e)) ↦
      subst (λ (x : BalanceChecker × Result BalanceInfo). IsKeyed x.0 a) (sym e)
        (stored-IsKeyed c a b (fetched c b r n) refl h)
  | inr (inr (e, _)) ↦ subst (λ x. IsKeyed x a) (sym e) h
]
step-IsKeyed c a clears h = tt
step-IsKeyed c a (sets_threshold threshold) h = h
step-IsKeyed c a (sets_ttl ttl) h = h

run-IsKeyed :
    (c : BalanceChecker) (a : ℕ) (calls : List Call) → IsKeyed c a → IsKeyed (run c calls) a
unfolding run
run-IsKeyed c a [] h = h
run-IsKeyed c a (call ∷ calls) h = run-IsKeyed (step c call) a calls (step-IsKeyed c a call h)

-- The chain gave this balance to a check of `a` among the calls, at the time that is in it.
abbrev pub Given : ℕ → BalanceInfo → List Call → Type 0
Given a info [] = ⊥
Given a info (checks b r ∷ calls) =
    ((b ≡ a) × (r.balance ≡ answered info.balance) × (r.updated ≡ info.last_updated))
    ⊎ Given a info calls
Given a info (clears ∷ calls) = Given a info calls
Given a info (sets_threshold threshold ∷ calls) = Given a info calls
Given a info (sets_ttl ttl ∷ calls) = Given a info calls

-- What the cache holds after a check, if it holds something.
check_balance-source :
    (c : BalanceChecker) (a b : ℕ) (r : Reading) (info : BalanceInfo)
    → lookup a (check_balance c b r).0.balance_cache ≡ some info
    → (lookup a c.balance_cache ≡ some info)
      ⊎ ((b ≡ a) × (r.balance ≡ answered info.balance) × (r.updated ≡ info.last_updated))
check_balance-source c a b r info h = elim (check_balance-cases c b r) [
  | inl (i, there, young, e) ↦
      inl (ap (λ (x : BalanceChecker × Result BalanceInfo). lookup a x.0.balance_cache) (sym e) ∙ h)
  | inr (inl (n, given, e)) ↦
      let now : lookup a (stored c b (fetched c b r n)).balance_cache ≡ some info =
        ap (λ (x : BalanceChecker × Result BalanceInfo). lookup a x.0.balance_cache) (sym e) ∙ h in
      elim (Bool-cases (b == a)) [
        | inl same ↦
            let made : fetched c b r n ≡ info =
              ground (arith, same, now, lookup-stored c b a (fetched c b r n)) in
            inr (
              (==_iff b a).0 same,
              given ∙ ap (λ (x : BalanceInfo). answered x.balance) made,
              ap (λ (x : BalanceInfo). x.last_updated) made,
            )
        | inr other ↦ inl (ground (arith, other, now, lookup-stored c b a (fetched c b r n)))
      ]
  | inr (inr (e, _)) ↦ inl (ap (λ (x : BalanceChecker). lookup a x.balance_cache) (sym e) ∙ h)
]

run-source :
    (c : BalanceChecker) (a : ℕ) (calls : List Call) (info : BalanceInfo)
    → lookup a (run c calls).balance_cache ≡ some info
    → (lookup a c.balance_cache ≡ some info) ⊎ Given a info calls
unfolding run step clear_cache set_min_balance_threshold set_cache_ttl lookup
run-source c a [] info h = inl h
run-source c a (checks b r ∷ calls) info h =
    elim (run-source (check_balance c b r).0 a calls info h) [
      | inl before ↦ elim (check_balance-source c a b r info before) [
        | inl there ↦ inl there
        | inr here ↦ inr (inl here)
      ]
      | inr later ↦ inr (inr later)
    ]
run-source c a (clears ∷ calls) info h = elim (run-source (clear_cache c) a calls info h) [
  | inl before ↦ absurd (none_not_some before)
  | inr later ↦ inr later
]
run-source c a (sets_threshold threshold ∷ calls) info h =
    run-source (set_min_balance_threshold c threshold) a calls info h
run-source c a (sets_ttl ttl ∷ calls) info h = run-source (set_cache_ttl c ttl) a calls info h

-- Whatever calls were made on a new checker, a check of an address answers about that address, and with
-- the balance that the chain gives now, or with one that the chain gave to an earlier check of that
-- address, less than the time to live ago.
pub check_balance-fresh :
    (threshold ttl : ℕ) (calls : List Call) (a : ℕ) (r : Reading) (d : BalanceChecker)
    (info : BalanceInfo)
    → check_balance (run (new threshold ttl) calls) a r ≡ (d, ok info)
    → (info.address ≡ a)
      × ((r.balance ≡ answered info.balance)
          ⊎ (Given a info calls
              × (r.now < info.last_updated + (run (new threshold ttl) calls).cache_ttl)))
unfolding new lookup
check_balance-fresh threshold ttl calls a r d info e =
    let c : BalanceChecker = run (new threshold ttl) calls in
    let keyed : IsKeyed c a = run-IsKeyed (new threshold ttl) a calls tt in
    elim (check_balance-cases c a r) [
      | inl (i, there, young, e') ↦
          let same : i ≡ info = ground (arith, e, e') in
          let held : lookup a c.balance_cache ≡ some info = there ∙ ap some same in
          let given : Given a info calls = elim (run-source (new threshold ttl) a calls info held) [
            | inl before ↦ absurd (none_not_some before)
            | inr given ↦ given
          ] in
          (
            ground (arith, keyed, held),
            inr (
              given,
              subst (λ (x : BalanceInfo). r.now < x.last_updated + c.cache_ttl) same young,
            ),
          )
      | inr (inl (b, given, e')) ↦
          let same : fetched c a r b ≡ info = ground (arith, e, e') in
          (
            sym (ap (λ (x : BalanceInfo). x.address) same),
            inl (given ∙ ap (λ (x : BalanceInfo). answered x.balance) same),
          )
      | inr (inr (_, never)) ↦
          absurd (never info (ap (λ (x : BalanceChecker × Result BalanceInfo). x.1) e))
    ]

-- What a successful check leaves: the answer is in the cache.
check_balance-stored :
    (c d : BalanceChecker) (a : ℕ) (r : Reading) (info : BalanceInfo)
    → check_balance c a r ≡ (d, ok info)
    → (lookup a d.balance_cache ≡ some info) × (d.cache_ttl ≡ c.cache_ttl)
check_balance-stored c d a r info e = elim (check_balance-cases c a r) [
  | inl (i, there, young, e') ↦
      let same : ◌≡◌ {A = BalanceChecker × Result BalanceInfo} (c, ok i) (d, ok info) =
        sym e' ∙ e in
      ground (arith, same, there)
  | inr (inl (b, given, e')) ↦
      let same : ◌≡◌ {A = BalanceChecker × Result BalanceInfo}
          (stored c a (fetched c a r b), ok (fetched c a r b)) (d, ok info) =
        sym e' ∙ e in
      let here : lookup a (stored c a (fetched c a r b)).balance_cache ≡ some (fetched c a r b) =
        lookup-stored c a a (fetched c a r b) ∙ ground (arith, (==_iff a a).1 refl) in
      ground (arith, same, here)
  | inr (inr (_, never)) ↦
      absurd (never info (ap (λ (x : BalanceChecker × Result BalanceInfo). x.1) e))
]

-- A balance that was given is given again, without asking the chain, until it is older than the time to
-- live: the same answer, whatever the chain would say. Its `is_sufficient` is part of it, so it is still
-- that of the old threshold after the threshold has been changed.
check_balance-cached :
    (c d : BalanceChecker) (a threshold : ℕ) (r s : Reading) (info : BalanceInfo)
    → check_balance c a r ≡ (d, ok info)
    → s.now < info.last_updated + c.cache_ttl
    → (check_balance (set_min_balance_threshold d threshold) a s).1 ≡ ok info
unfolding check_balance set_min_balance_threshold
check_balance-cached c d a threshold r s info e recent =
    let (there, same) = check_balance-stored c d a r info e in ground (arith, there, same, recent)
