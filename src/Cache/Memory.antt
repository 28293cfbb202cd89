-- ===== src/Cache/Memory.antt =====
-- src/cache/memory.rs: `MemoryCache`. The methods never fail, so a result stands for its `Ok`. Each
-- reading of the clock is an argument. The map `data` is the field `entries`, and its iteration order is
-- that of the list.
mod Calls
mod Values
mod Bound
mod Traces
mod Tests
use express402_relayer.Common.{
  ℕ, suc, ◌+◌, ◌-◌, ◌%◌, ◌^◌, Bool, true, false, not, ◌&&◌, Option, none, some, List, [], ◌∷◌,
  String, ltb, leb, if◌then◌else◌, length, retain, Map, lookup, insert, remove, update,
  contains_key, string_eq, retain_values,
}
use express402_relayer.Types.Wallet.{u64}

-- The time at which an entry expires, if it does, is passed.
abbrev pub is_past : Option ℕ → ℕ → Bool
is_past none now = false
is_past (some expires_at) now = ltb expires_at now

-- `ttl.map(|ttl| now + ttl)`.
abbrev pub expiry : Option ℕ → ℕ → Option ℕ
expiry none now = none
expiry (some ttl) now = some (now + ttl)

-- `ttl.or(Some(default_ttl))`.
abbrev pub or_default : Option ℕ → ℕ → Option ℕ
or_default none default_ttl = some default_ttl
or_default (some ttl) default_ttl = some ttl

module _ (T : Type 0) where
  pub record CacheEntry : Type 0 where
    pub value : T
    pub created_at : ℕ
    pub expires_at : Option ℕ
    pub access_count : ℕ  -- u64
    pub last_accessed : ℕ

  pub record MemoryCache : Type 0 where
    pub entries : Map String CacheEntry
    pub max_size : ℕ
    pub default_ttl : ℕ
    pub cleanup_interval : ℕ

  unfoldable pub new_entry : T → Option ℕ → ℕ → CacheEntry
  new_entry value ttl now = record {
    value = value;
    created_at = now;
    expires_at = expiry ttl now;
    access_count = 0;
    last_accessed = now;
  }

  abbrev pub is_expired : CacheEntry → ℕ → Bool
  is_expired entry now = is_past entry.expires_at now

  unfoldable pub access : ℕ → CacheEntry → CacheEntry
  access now entry = record entry {
    access_count = u64 (entry.access_count + 1);
    last_accessed = now;
  }

  unfoldable pub new : ℕ → ℕ → ℕ → MemoryCache
  new max_size default_ttl cleanup_interval = record {
    entries = [];
    max_size = max_size;
    default_ttl = default_ttl;
    cleanup_interval = cleanup_interval;
  }

  unfoldable pub get : MemoryCache → String → ℕ → ℕ → MemoryCache × Option T
  unfolding access
  get c key now accessed = elim (lookup key c.entries) [
    | none ↦ (c, none)
    | some entry ↦
        if is_expired entry now
        then (record c { entries = remove key c.entries }, none)
        else (record c { entries = update key (access accessed) c.entries }, some entry.value)
  ]

  -- The loop of `evict_lru`, with the key found so far and its time.
  unfoldable pub oldest : Option String → ℕ → Map String CacheEntry → Option String
  oldest lru_key oldest_access [] = lru_key
  oldest lru_key oldest_access ((key, entry) ∷ m) =
      oldest (if ltb entry.last_accessed oldest_access then some key else lru_key)
        (if ltb entry.last_accessed oldest_access then entry.last_accessed else oldest_access) m

  -- The early return for an empty map changes nothing, as the loop then finds no key.
  unfoldable pub evict_lru : Map String CacheEntry → ℕ → Map String CacheEntry
  unfolding oldest
  evict_lru m now = elim (oldest none now m) [ none ↦ m | some key ↦ remove key m ]

  -- The insertion of `set` and `set_multiple`, under the lock.
  unfoldable pub set : MemoryCache → String → T → Option ℕ → ℕ → ℕ → MemoryCache
  unfolding evict_lru new_entry
  set c key value ttl now created = record c {
    entries = insert key (new_entry value (or_default ttl c.default_ttl) created) (
        if leb c.max_size (length c.entries) && not (contains_key key c.entries)
        then evict_lru c.entries now
        else c.entries);
  }

  -- The items with the readings of the clock for each.
  unfoldable pub set_multiple : MemoryCache → List (String × T × ℕ × ℕ) → Option ℕ → MemoryCache
  unfolding set
  set_multiple c [] ttl = c
  set_multiple c ((key, value, now, created) ∷ items) ttl =
      set_multiple (set c key value ttl now created) items ttl

  unfoldable pub delete : MemoryCache → String → MemoryCache × Bool
  delete c key = (record c { entries = remove key c.entries }, contains_key key c.entries)

  unfoldable pub exists : MemoryCache → String → ℕ → Bool
  exists c key now = elim (lookup key c.entries) [
    | none ↦ false
    | some entry ↦ not (is_expired entry now)
  ]

  unfoldable pub clear : MemoryCache → MemoryCache
  clear c = record c { entries = [] }

  -- The loop of `get_multiple`, with the result so far.
  unfoldable pub collect : MemoryCache → ℕ → List String → Map String T → Map String T
  collect c now [] result = result
  collect c now (key ∷ keys) result = collect c now keys (elim (lookup key c.entries) [
    | none ↦ result
    | some entry ↦ if is_expired entry now then result else insert key entry.value result
  ])

  unfoldable pub get_multiple : MemoryCache → List String → ℕ → Map String T
  unfolding collect
  get_multiple c keys now = collect c now keys []

  -- The number of entries dropped is counted as the map is walked.
  unfoldable pub cleanup_expired : MemoryCache → ℕ → MemoryCache × ℕ
  cleanup_expired c now =
      let kept = retain_values (λ (entry : CacheEntry). not (is_expired entry now)) c.entries in
      (record c { entries = kept }, length c.entries - length kept)

  unfoldable pub get_keys : MemoryCache → ℕ → List String
  get_keys c now = keys_of c.entries
    where
      keys_of : Map String CacheEntry → List String
      keys_of [] = []
      keys_of ((key, entry) ∷ m) =
          let rest = keys_of m in if is_expired entry now then rest else key ∷ rest
