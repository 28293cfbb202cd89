-- ===== src/Cache/Memory/Calls.antt =====
-- Sequences of calls of the cache (src/cache/memory.rs).
use express402_relayer.Common.{
  ℕ, ◌≡◌, refl, sym, subst, ◌⊎◌, inl, inr, Bool, not, ◌&&◌, Option, none, List, [], ◌∷◌, String,
  leb, length, Map, lookup, remove, update, contains_key, string_eq, retain, retain_values, Unique,
  Bool-cases, Option-cases, arith, insert-Unique, remove-Unique, update-Unique,
}
use express402_relayer.Cache.Memory.{
  or_default, CacheEntry, MemoryCache, new_entry, is_expired, access, get, oldest, evict_lru, set,
  set_multiple, delete, clear, cleanup_expired,
}

module _ (T : Type 0) where
  -- The public calls that change the cache; each item of `set_multiple` has its readings of the clock.
  pub data Call : Type 0 where
    gets : String → Call
    sets : String → T → Option ℕ → Call
    sets_multiple : List (String × T × ℕ × ℕ) → Option ℕ → Call
    deletes : String → Call
    clears : Call
    cleans : Call

  -- A call with its first and last reading of the clock.
  unfoldable pub step : MemoryCache T → Call → ℕ → ℕ → MemoryCache T
  step c (gets key) first last = (get T c key first last).0
  step c (sets key value ttl) first last = set T c key value ttl first last
  step c (sets_multiple items ttl) first last = set_multiple T c items ttl
  step c (deletes key) first last = (delete T c key).0
  step c clears first last = clear T c
  step c cleans first last = (cleanup_expired T c first).0

  unfoldable pub run : MemoryCache T → List (Call × ℕ × ℕ) → MemoryCache T
  unfolding step
  run c [] = c
  run c ((call, first, last) ∷ calls) = run (step c call first last) calls

  pub get-cases :
      (c : MemoryCache T) (key : String) (now accessed : ℕ)
      → ((get T c key now accessed).0 ≡ c)
        ⊎ ((get T c key now accessed).0 ≡ record c { entries = remove key c.entries })
        ⊎ ((get T c key now accessed).0
            ≡ record c { entries = update key (access T accessed) c.entries })
  unfolding get
  get-cases c key now accessed = ground arith

  retain-absent :
      (keep : CacheEntry T → Bool) (j : String) (m : Map String (CacheEntry T))
      → lookup j m ≡ none
      → lookup j (retain_values keep m) ≡ none
  unfolding lookup retain
  retain-absent keep j [] h = refl
  retain-absent keep j ((i, e) ∷ m) h = ground (arith, retain-absent keep j m)

  pub retain-Unique :
      (keep : CacheEntry T → Bool) (m : Map String (CacheEntry T))
      → Unique m
      → Unique (retain_values keep m)
  unfolding retain
  retain-Unique keep [] u = tt
  retain-Unique keep ((j, e) ∷ m) u =
      ground (arith, u, retain-Unique keep m u.1, retain-absent keep j m u.0)

  pub evict_lru-Unique :
      (now : ℕ) (m : Map String (CacheEntry T)) → Unique m → Unique (evict_lru T m now)
  unfolding evict_lru
  evict_lru-Unique now m u = elim (Option-cases (oldest T none now m)) [
    | inl none_found ↦ rw (none_found, evict_lru) u
    | inr (k, found) ↦ rw (found, evict_lru) (remove-Unique k m u)
  ]

  pub set-Unique :
      (c : MemoryCache T) (key : String) (value : T) (ttl : Option ℕ) (first last : ℕ)
      → Unique c.entries
      → Unique (set T c key value ttl first last).entries
  unfolding set new_entry
  set-Unique c key value ttl first last u =
      let entry : CacheEntry T = new_entry T value (or_default ttl c.default_ttl) last in
      elim (Bool-cases (leb c.max_size (length c.entries) && not (contains_key key c.entries))) [
        | inl full ↦ rw full (insert-Unique key entry _ (evict_lru-Unique first c.entries u))
        | inr room ↦ rw room (insert-Unique key entry _ u)
      ]

  set_multiple-Unique :
      (c : MemoryCache T) (items : List (String × T × ℕ × ℕ)) (ttl : Option ℕ)
      → Unique c.entries
      → Unique (set_multiple T c items ttl).entries
  unfolding set_multiple
  set_multiple-Unique c [] ttl u = u
  set_multiple-Unique c ((key, value, now, created) ∷ items) ttl u =
      set_multiple-Unique (set T c key value ttl now created) items ttl
        (set-Unique c key value ttl now created u)

  -- Each call keeps one entry for each key.
  pub step-Unique :
      (c : MemoryCache T) (call : Call) (first last : ℕ)
      → Unique c.entries
      → Unique (step c call first last).entries
  unfolding step delete clear cleanup_expired
  step-Unique c (gets key) first last u = elim (get-cases c key first last) [
    | inl same ↦ subst (λ (x : MemoryCache T). Unique x.entries) (sym same) u
    | inr (inl dropped) ↦
        subst (λ (x : MemoryCache T). Unique x.entries) (sym dropped)
          (remove-Unique key c.entries u)
    | inr (inr found) ↦
        subst (λ (x : MemoryCache T). Unique x.entries) (sym found)
          (update-Unique key (access T last) c.entries u)
  ]
  step-Unique c (sets key value ttl) first last u = set-Unique c key value ttl first last u
  step-Unique c (sets_multiple items ttl) first last u = set_multiple-Unique c items ttl u
  step-Unique c (deletes key) first last u = remove-Unique key c.entries u
  step-Unique c clears first last u = tt
  step-Unique c cleans first last u = retain-Unique (λ e. not (is_expired T e first)) c.entries u
