-- ===== src/Cache/Memory/Traces.antt =====
-- The size of the cache over any calls (src/cache/memory.rs).
use express402_relayer.Common.{
  ℕ, suc, ◌≤◌, ◌<◌, ◌≡◌, refl, sym, subst, inl, inr, Bool, not, ◌&&◌, Option, none, List, [], ◌∷◌,
  String, leb, length, Map, insert, remove, update, contains_key, string_eq, retain, retain_values,
  Unique, Bool-cases, Option-cases, arith, remove-Unique, update-Unique, length-remove-le,
  length-update,
}
use express402_relayer.Cache.Memory.{
  or_default, CacheEntry, MemoryCache, new_entry, is_expired, access, oldest, evict_lru, set,
  set_multiple, delete, clear, cleanup_expired, new,
}
use express402_relayer.Cache.Memory.Calls.{
  Call, gets, sets, sets_multiple, deletes, clears, cleans, step, run, get-cases, retain-Unique,
  set-Unique,
}
use express402_relayer.Cache.Memory.Bound.{BeforeAll, set-length}

module _ (T : Type 0) where
  -- The readings of the clock for items, the first after `t` and the last one not after `last`: the clock
  -- moves on between two items.
  abbrev pub OrderedItems : ℕ → List (String × T × ℕ × ℕ) → ℕ → Type 0
  OrderedItems t [] last = t ≤ last
  OrderedItems t ((key, value, now, created) ∷ items) last =
      (t < now) × (now ≤ created) × OrderedItems created items last

  abbrev pub Within : ℕ → Call T → ℕ → Type 0
  Within t (gets key) last = Unit
  Within t (sets key value ttl) last = Unit
  Within t (sets_multiple items ttl) last = OrderedItems t items last
  Within t (deletes key) last = Unit
  Within t clears last = Unit
  Within t cleans last = Unit

  -- The clock moves on between two calls.
  abbrev pub Ordered : ℕ → List (Call T × ℕ × ℕ) → Type 0
  Ordered t [] = Unit
  Ordered t ((call, first, last) ∷ calls) =
      (t < first) × (first ≤ last) × Within t call last × Ordered last calls

  record Sound (t : ℕ) (c : MemoryCache T) : Type 0 where
    unique : Unique c.entries
    before : BeforeAll T (suc t) c.entries
    room : 0 < c.max_size
    fits : length c.entries ≤ c.max_size

  BeforeAll-le :
      (s t : ℕ) (m : Map String (CacheEntry T)) → s ≤ t → BeforeAll T s m → BeforeAll T t m
  BeforeAll-le s t [] h k = tt
  BeforeAll-le s t (p ∷ m) h k = (omega (arith, k.0), BeforeAll-le s t m h k.1)

  remove-BeforeAll :
      (t : ℕ) (k : String) (m : Map String (CacheEntry T))
      → BeforeAll T t m
      → BeforeAll T t (remove k m)
  unfolding remove
  remove-BeforeAll t k [] h = tt
  remove-BeforeAll t k ((j, e) ∷ m) h = ground (arith, h, remove-BeforeAll t k m h.1)

  insert-BeforeAll :
      (t : ℕ) (k : String) (v : CacheEntry T) (m : Map String (CacheEntry T))
      → v.last_accessed < t
      → BeforeAll T t m
      → BeforeAll T t (insert k v m)
  unfolding insert
  insert-BeforeAll t k v [] h b = (h, tt)
  insert-BeforeAll t k v ((j, e) ∷ m) h b = ground (arith, h, b, insert-BeforeAll t k v m h b.1)

  access-BeforeAll :
      (t last : ℕ) (k : String) (m : Map String (CacheEntry T))
      → last < t
      → BeforeAll T t m
      → BeforeAll T t (update k (access T last) m)
  unfolding update access
  access-BeforeAll t last k [] h b = tt
  access-BeforeAll t last k ((j, e) ∷ m) h b =
      ground (arith, h, b, access-BeforeAll t last k m h b.1)

  evict-BeforeAll :
      (t now : ℕ) (m : Map String (CacheEntry T))
      → BeforeAll T t m
      → BeforeAll T t (evict_lru T m now)
  unfolding evict_lru
  evict-BeforeAll t now m b = elim (Option-cases (oldest T none now m)) [
    | inl none_found ↦ rw (none_found, evict_lru) b
    | inr (k, found) ↦ rw (found, evict_lru) (remove-BeforeAll t k m b)
  ]

  retain-kept :
      (t : ℕ) (keep : CacheEntry T → Bool) (m : Map String (CacheEntry T))
      → BeforeAll T t m
      → BeforeAll T t (retain_values keep m) × (length (retain_values keep m) ≤ length m)
  unfolding retain
  retain-kept t keep [] b = (tt, omega arith)
  retain-kept t keep ((j, e) ∷ m) b = ground (arith, b, retain-kept t keep m b.1)

  later-Sound : (s t : ℕ) (c : MemoryCache T) → s ≤ t → Sound s c → Sound t c
  later-Sound s t c h d = record {
    unique = d.unique;
    before = BeforeAll-le (suc s) (suc t) c.entries (omega arith) d.before;
    room = d.room;
    fits = d.fits;
  }

  set-BeforeAll :
      (t : ℕ) (c : MemoryCache T) (key : String) (value : T) (ttl : Option ℕ) (first last : ℕ)
      → last < t
      → BeforeAll T t c.entries
      → BeforeAll T t (set T c key value ttl first last).entries
  unfolding set new_entry
  set-BeforeAll t c key value ttl first last h b =
      let entry : CacheEntry T = new_entry T value (or_default ttl c.default_ttl) last in
      let b' = evict-BeforeAll t first c.entries b in
      elim (Bool-cases (leb c.max_size (length c.entries) && not (contains_key key c.entries))) [
        | inl full ↦ rw full (insert-BeforeAll t key entry (evict_lru T c.entries first) h b')
        | inr room ↦ rw room (insert-BeforeAll t key entry c.entries h b)
      ]

  set-max_size :
      (c : MemoryCache T) (key : String) (value : T) (ttl : Option ℕ) (first last : ℕ)
      → (set T c key value ttl first last).max_size ≡ c.max_size
  unfolding set
  set-max_size c key value ttl first last = refl

  set-Sound :
      (t : ℕ) (c : MemoryCache T) (key : String) (value : T) (ttl : Option ℕ) (first last : ℕ)
      → t < first
      → first ≤ last
      → Sound t c
      → Sound last (set T c key value ttl first last)
  set-Sound t c key value ttl first last h k d =
      let later : Sound last c = later-Sound t last c (omega arith) d in
      record {
        unique = set-Unique T c key value ttl first last later.unique;
        before = set-BeforeAll (suc last) c key value ttl first last (omega arith) later.before;
        room = rw (set-max_size c key value ttl first last) d.room;
        fits = rw (set-max_size c key value ttl first last) (
            set-length T c key value ttl first last d.unique
              (BeforeAll-le (suc t) first c.entries (omega arith) d.before) d.room d.fits);
      }

  set_multiple-Sound :
      (t : ℕ) (c : MemoryCache T) (items : List (String × T × ℕ × ℕ)) (ttl : Option ℕ) (last : ℕ)
      → OrderedItems t items last
      → Sound t c
      → Sound last (set_multiple T c items ttl)
  unfolding set_multiple
  set_multiple-Sound t c [] ttl last o d = later-Sound t last c o d
  set_multiple-Sound t c ((key, value, now, created) ∷ items) ttl last o d =
      set_multiple-Sound created (set T c key value ttl now created) items ttl last o.2
        (set-Sound t c key value ttl now created o.0 o.1 d)

  step-Sound :
      (t : ℕ) (c : MemoryCache T) (call : Call T) (first last : ℕ)
      → t < first
      → first ≤ last
      → Within t call last
      → Sound t c
      → Sound last (step T c call first last)
  unfolding step delete clear cleanup_expired
  step-Sound t c (gets key) first last h k w d =
      let later : Sound last c = later-Sound t last c (omega arith) d in
      elim (get-cases T c key first last) [
        | inl same ↦ subst (Sound last) (sym same) later
        | inr (inl dropped) ↦ subst (Sound last) (sym dropped) (record {
          unique = remove-Unique key c.entries later.unique;
          before = remove-BeforeAll (suc last) key c.entries later.before;
          room = later.room;
          fits = omega (arith, length-remove-le key c.entries, later.fits);
        })
        | inr (inr found) ↦ subst (Sound last) (sym found) (record {
          unique = update-Unique key (access T last) c.entries later.unique;
          before = access-BeforeAll (suc last) last key c.entries (omega arith) later.before;
          room = later.room;
          fits = omega (arith, length-update key (access T last) c.entries, later.fits);
        })
      ]
  step-Sound t c (sets key value ttl) first last h k w d =
      set-Sound t c key value ttl first last h k d
  step-Sound t c (sets_multiple items ttl) first last h k w d =
      set_multiple-Sound t c items ttl last w d
  step-Sound t c (deletes key) first last h k w d =
      let later : Sound last c = later-Sound t last c (omega arith) d in
      record {
        unique = remove-Unique key c.entries later.unique;
        before = remove-BeforeAll (suc last) key c.entries later.before;
        room = later.room;
        fits = omega (arith, length-remove-le key c.entries, later.fits);
      }
  step-Sound t c clears first last h k w d = record {
    unique = tt;
    before = tt;
    room = d.room;
    fits = omega (arith, d.room);
  }
  step-Sound t c cleans first last h k w d =
      let later : Sound last c = later-Sound t last c (omega arith) d in
      let (b, shorter) =
        retain-kept (suc last) (λ e. not (is_expired T e first)) c.entries later.before in
      record {
        unique = retain-Unique T (λ e. not (is_expired T e first)) c.entries later.unique;
        before = b;
        room = later.room;
        fits = omega (arith, shorter, later.fits);
      }

  run-length :
      (t : ℕ) (c : MemoryCache T) (calls : List (Call T × ℕ × ℕ))
      → Ordered t calls
      → Sound t c
      → length (run T c calls).entries ≤ (run T c calls).max_size
  unfolding run
  run-length t c [] o d = d.fits
  run-length t c ((call, first, last) ∷ calls) o d =
      run-length last (step T c call first last) calls o.3
        (step-Sound t c call first last o.0 o.1 o.2 d)

  -- Whatever calls are made on a new cache whose size is not 0, `set_multiple` among them, it never holds
  -- more entries than that, as long as the clock moves on between two calls and between two items of a
  -- `set_multiple`.
  pub run-new-length :
      (max_size default_ttl cleanup_interval t : ℕ) (calls : List (Call T × ℕ × ℕ))
      → 0 < max_size
      → Ordered t calls
      → length (run T (new T max_size default_ttl cleanup_interval) calls).entries
        ≤ (run T (new T max_size default_ttl cleanup_interval) calls).max_size
  unfolding new
  run-new-length max_size default_ttl cleanup_interval t calls h o =
      run-length t (new T max_size default_ttl cleanup_interval) calls o
        (record { unique = tt; before = tt; room = h; fits = omega arith })
