-- ===== src/Cache/Memory/Values.antt =====
-- Which values the cache gives back (src/cache/memory.rs).
use express402_relayer.Common.{
  ℕ, ◌≤◌, ◌≡◌, refl, ap, ◌∙◌, Bool, false, not, ◌&&◌, Option, none, some, List, [], ◌∷◌, String,
  leb, ◌≢◌, if◌then◌else◌, length, Map, lookup, contains_key, string_eq, lookup-insert,
  lookup-remove, lookup-update, retain, retain_values, Unique, arith,
}
use express402_relayer.Cache.Memory.Calls.{
  Call, gets, sets, sets_multiple, deletes, clears, cleans, step, run, step-Unique, set-Unique,
}
use express402_relayer.Cache.Memory.{
  is_past, expiry, or_default, CacheEntry, MemoryCache, new_entry, is_expired, access, get,
  evict_lru, set, set_multiple, delete, cleanup_expired,
}

module _ (T : Type 0) where
  -- The value that is in the cache for a key, unless it has expired.
  abbrev pub live : Option (CacheEntry T) → ℕ → Option T
  live none now = none
  live (some entry) now = if is_expired T entry now then none else some entry.value

  get-live :
      (c : MemoryCache T) (key : String) (now accessed : ℕ)
      → (get T c key now accessed).1 ≡ live (lookup key c.entries) now
  unfolding get
  get-live c key now accessed = ground arith

  set-lookup :
      (c : MemoryCache T) (key : String) (value : T) (ttl : Option ℕ) (evicted created : ℕ)
      → lookup key (set T c key value ttl evicted created).entries
        ≡ some (new_entry T value (or_default ttl c.default_ttl) created)
  unfolding set
  set-lookup c key value ttl evicted created = ground (
    arith,
    lookup-insert key key (new_entry T value (or_default ttl c.default_ttl) created) c.entries,
    lookup-insert key key (new_entry T value (or_default ttl c.default_ttl) created)
        (evict_lru T c.entries evicted),
    (string_eq.beq_iff key key).1 refl,
  )

  lookup-retain_values :
      (keep : CacheEntry T → Bool) (k : String) (m : Map String (CacheEntry T))
      → Unique m
      → lookup k (retain_values keep m)
        ≡ elim (lookup k m) [ none ↦ none | some e ↦ if keep e then some e else none ]
  unfolding lookup retain
  lookup-retain_values keep k [] u = refl
  lookup-retain_values keep k ((j, e) ∷ m) u =
      ground (arith, lookup-retain_values keep k m u.1, string_eq.beq_iff j k, u.0)

  -- A cleanup changes no answer of a later `get`. (Each key has one entry.)
  cleanup_expired-get :
      (c : MemoryCache T) (key : String) (cleaned now accessed : ℕ)
      → Unique c.entries
      → cleaned ≤ now
      → (get T (cleanup_expired T c cleaned).0 key now accessed).1 ≡ (get T c key now accessed).1
  unfolding get cleanup_expired
  cleanup_expired-get c key cleaned now accessed u h =
      ground (arith, lookup-retain_values (λ e. not (is_expired T e cleaned)) key c.entries u)

  -- `set` evicts nothing.
  abbrev pub HasRoom : MemoryCache T → String → Type 0
  HasRoom c key = (leb c.max_size (length c.entries) && not (contains_key key c.entries)) ≡ false

  abbrev pub Others : String → MemoryCache T → List (String × T × ℕ × ℕ) → Option ℕ → Type 0
  Others key c [] ttl = Unit
  Others key c ((k, value, now, created) ∷ items) ttl =
      (k ≢ key) × HasRoom c k × Others key (set T c k value ttl now created) items ttl

  -- A call up to `now` after which the entry of `key` is still there: it sets or deletes other keys only,
  -- and it evicts and clears nothing.
  abbrev pub Keeps : String → ℕ → MemoryCache T → Call T → ℕ → Type 0
  Keeps key now c (gets k) first = first ≤ now
  Keeps key now c (sets k value ttl) first = (k ≢ key) × HasRoom c k
  Keeps key now c (sets_multiple items ttl) first = Others key c items ttl
  Keeps key now c (deletes k) first = k ≢ key
  Keeps key now c clears first = ⊥
  Keeps key now c cleans first = first ≤ now

  abbrev pub KeepsAll : String → ℕ → MemoryCache T → List (Call T × ℕ × ℕ) → Type 0
  KeepsAll key now c [] = Unit
  KeepsAll key now c ((call, first, last) ∷ calls) =
      Keeps key now c call first × KeepsAll key now (step T c call first last) calls

  -- What `key` gives at `now`.
  abbrev at : String → ℕ → MemoryCache T → Option T
  at key now c = live (lookup key c.entries) now

  gets-at :
      (c : MemoryCache T) (key k : String) (now first last : ℕ)
      → first ≤ now
      → at key now (get T c k first last).0 ≡ at key now c
  unfolding get access
  gets-at c key k now first last h = ground (
    arith,
    lookup-remove k key c.entries,
    lookup-update k key (access T last) c.entries,
    string_eq.beq_iff k key,
  )

  set-at :
      (c : MemoryCache T) (key k : String) (value : T) (ttl : Option ℕ) (now first last : ℕ)
      → k ≢ key
      → HasRoom c k
      → at key now (set T c k value ttl first last) ≡ at key now c
  unfolding set
  set-at c key k value ttl now first last other room = rw room (
      ground (
        arith,
        lookup-insert k key (new_entry T value (or_default ttl c.default_ttl) last) c.entries,
        other,
        string_eq.beq_iff k key,
      ))

  set_multiple-at :
      (c : MemoryCache T) (key : String) (items : List (String × T × ℕ × ℕ)) (ttl : Option ℕ)
      (now : ℕ)
      → Others key c items ttl
      → at key now (set_multiple T c items ttl) ≡ at key now c
  unfolding set_multiple
  set_multiple-at c key [] ttl now o = refl
  set_multiple-at c key ((k, value, first, last) ∷ items) ttl now o =
      set_multiple-at (set T c k value ttl first last) key items ttl now o.2
      ∙ set-at c key k value ttl now first last o.0 o.1

  step-at :
      (c : MemoryCache T) (key : String) (call : Call T) (now first last : ℕ)
      → Unique c.entries
      → Keeps key now c call first
      → at key now (step T c call first last) ≡ at key now c
  unfolding step delete cleanup_expired
  step-at c key (gets k) now first last u h = gets-at c key k now first last h
  step-at c key (sets k value ttl) now first last u h =
      set-at c key k value ttl now first last h.0 h.1
  step-at c key (sets_multiple items ttl) now first last u h = set_multiple-at c key items ttl now h
  step-at c key (deletes k) now first last u h =
      ground (arith, lookup-remove k key c.entries, h, string_eq.beq_iff k key)
  step-at c key clears now first last u h = absurd h
  step-at c key cleans now first last u h =
      ground (arith, lookup-retain_values (λ e. not (is_expired T e first)) key c.entries u)

  run-at :
      (c : MemoryCache T) (key : String) (calls : List (Call T × ℕ × ℕ)) (now : ℕ)
      → Unique c.entries
      → KeepsAll key now c calls
      → at key now (run T c calls) ≡ at key now c
  unfolding run
  run-at c key [] now u h = refl
  run-at c key ((call, first, last) ∷ calls) now u h =
      run-at (step T c call first last) key calls now (step-Unique T c call first last u) h.1
      ∙ step-at c key call now first last u h.0

  -- A value that was set is given back until it expires, after its `ttl` or the default one, and nothing
  -- after that: by a `get` directly after the `set`, or after later calls up to that time, if none of
  -- them clears the cache, deletes the key, sets it again or evicts an entry. (In the cache before the
  -- `set`, each key has one entry.)
  pub get-set :
      (c : MemoryCache T) (key : String) (value : T) (ttl : Option ℕ)
      (evicted created now accessed : ℕ) (later : List (Call T × ℕ × ℕ))
      → Unique c.entries
      → KeepsAll key now (set T c key value ttl evicted created) later
      → (get T (run T (set T c key value ttl evicted created) later) key now accessed).1
        ≡ (if is_past (expiry (or_default ttl c.default_ttl) created) now then none else some value)
  unfolding new_entry
  get-set c key value ttl evicted created now accessed later u h =
      get-live (run T (set T c key value ttl evicted created) later) key now accessed
      ∙ run-at (set T c key value ttl evicted created) key later now
          (set-Unique T c key value ttl evicted created u) h
      ∙ ap (λ o. live o now) (set-lookup c key value ttl evicted created)
