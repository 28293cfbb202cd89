-- ===== src/Cache/Memory/Bound.antt =====
-- The size of the cache, and which entry it evicts (src/cache/memory.rs, `evict_lru`).
use express402_relayer.Common.{
  ℕ, suc, ◌≤◌, ◌<◌, ◌≡◌, ◌≢◌, refl, subst, ◌⊎◌, inl, inr, Option, none, some, [], ◌∷◌, String, ltb,
  length, All, Map, lookup, remove, contains_key, string_eq, Unique, Bool-cases, Option-cases,
  arith, length-remove_present, length-insert-le, length-insert_present,
}
use express402_relayer.Cache.Memory.{
  or_default, CacheEntry, MemoryCache, new_entry, oldest, evict_lru, set,
}

module _ (T : Type 0) where
  Entries : Type 0
  Entries = Map String (CacheEntry T)

  -- Each entry was accessed no earlier than `t`.
  abbrev pub SinceAll : ℕ → Map String (CacheEntry T) → Type 0
  SinceAll t m = All (λ (p : String × CacheEntry T). t ≤ p.1.last_accessed) m

  -- Each entry was accessed before `t`.
  abbrev pub BeforeAll : ℕ → Map String (CacheEntry T) → Type 0
  BeforeAll t m = All (λ (p : String × CacheEntry T). p.1.last_accessed < t) m

  SinceAll-le : (s t : ℕ) (m : Map String (CacheEntry T)) → s ≤ t → SinceAll t m → SinceAll s m
  SinceAll-le s t [] h k = tt
  SinceAll-le s t (p ∷ m) h k = (omega arith, SinceAll-le s t m h k.1)

  -- `k` is the key of an entry of `m` that was accessed before `b`, and none was accessed earlier.
  record IsOldest (k : String) (b : ℕ) (m : Map String (CacheEntry T)) : Type 0 where
    entry : CacheEntry T
    there : lookup k m ≡ some entry
    before : entry.last_accessed < b
    least : SinceAll entry.last_accessed m

  -- An entry further down is that of its key in the whole map.
  lookup-below :
      (j k : String) (e f : CacheEntry T) (m : Map String (CacheEntry T))
      → lookup j m ≡ none
      → lookup k m ≡ some f
      → lookup k ((j, e) ∷ m) ≡ some f
  unfolding lookup
  lookup-below j k e f m above there = elim (Bool-cases (string_eq.beq j k)) [
    | inl same ↦
        let equal : j ≡ k = (string_eq.beq_iff j k).0 same in
        let gone : lookup k m ≡ none = subst (λ x. lookup x m ≡ none) equal above in
        absurd (ground (arith, gone, there))
    | inr other ↦ rw other there
  ]

  lookup-head :
      (j : String) (e : CacheEntry T) (m : Map String (CacheEntry T))
      → lookup j ((j, e) ∷ m) ≡ some e
  unfolding lookup
  lookup-head j e m = ground (arith, (string_eq.beq_iff j j).1 refl)

  oldest-IsOldest :
      (best : Option String) (b : ℕ) (m : Map String (CacheEntry T))
      → Unique m
      → ((oldest T best b m ≡ best) × SinceAll b m)
        ⊎ ((k : String) × (oldest T best b m ≡ some k) × IsOldest k b m)
  unfolding oldest
  oldest-IsOldest best b [] u = inl (refl, tt)
  oldest-IsOldest best b ((j, e) ∷ m) u = elim (Bool-cases (ltb e.last_accessed b)) [
    | inl earlier ↦ elim (oldest-IsOldest (some j) e.last_accessed m u.1) [
      | inl (same, since) ↦ inr (
        j,
        ground (arith, earlier, same),
        record {
          entry = e;
          there = lookup-head j e m;
          before = ground arith;
          least = (omega arith, since);
        },
      )
      | inr (k, found, o) ↦ inr (
        k,
        ground (arith, earlier, found),
        record {
          entry = o.entry;
          there = lookup-below j k e o.entry m u.0 o.there;
          before = ground (arith, o.before);
          least = (omega (arith, o.before), o.least);
        },
      )
    ]
    | inr later ↦ elim (oldest-IsOldest best b m u.1) [
      | inl (same, since) ↦ inl (ground (arith, later, same), (ground arith, since))
      | inr (k, found, o) ↦ inr (
        k,
        ground (arith, later, found),
        record {
          entry = o.entry;
          there = lookup-below j k e o.entry m u.0 o.there;
          before = o.before;
          least = (ground (arith, o.before), o.least);
        },
      )
    ]
  ]

  -- A full cache evicts an entry that nobody has used for the longest time: it is one of the map, none
  -- was accessed earlier, and nothing else is removed. (Each key has one entry, and each entry was
  -- accessed before the eviction.)
  evict_lru-oldest :
      (m : Map String (CacheEntry T)) (now : ℕ)
      → Unique m
      → BeforeAll now m
      → m ≢ []
      → (k : String) × (e : CacheEntry T) × (lookup k m ≡ some e)
        × SinceAll e.last_accessed m
        × (evict_lru T m now ≡ remove k m)
  unfolding evict_lru
  evict_lru-oldest [] now u before some_entry = absurd (some_entry refl)
  evict_lru-oldest (p ∷ m) now u before some_entry = elim (oldest-IsOldest none now (p ∷ m) u) [
    | inl (_, since) ↦ absurd (omega (arith, since.0, before.0))
    | inr (k, found, o) ↦ (k, o.entry, o.there, o.least, ground (arith, found))
  ]

  evict_lru-length :
      (m : Map String (CacheEntry T)) (now : ℕ)
      → Unique m
      → BeforeAll now m
      → 0 < length m
      → suc (length (evict_lru T m now)) ≤ length m
  evict_lru-length m now u before h =
      let (k, e, there, _, gone) = evict_lru-oldest m now u before (λ q. ground (arith, q)) in
      rw gone (length-remove_present k m e there)

  -- Setting a value keeps the cache within its size.
  pub set-length :
      (c : MemoryCache T) (key : String) (value : T) (ttl : Option ℕ) (now created : ℕ)
      → Unique c.entries
      → BeforeAll now c.entries
      → 0 < c.max_size
      → length c.entries ≤ c.max_size
      → length (set T c key value ttl now created).entries ≤ c.max_size
  unfolding set contains_key
  set-length c key value ttl now created u before room fits =
      let entry : CacheEntry T = new_entry T value (or_default ttl c.default_ttl) created in
      elim (Option-cases (lookup key c.entries)) [
        | inr (e, there) ↦ ground (arith, there, length-insert_present key entry e c.entries there)
        | inl absent ↦ ground (
          arith,
          absent,
          evict_lru-length c.entries now u before,
          length-insert-le key entry c.entries,
          length-insert-le key entry (evict_lru T c.entries now),
        )
      ]
