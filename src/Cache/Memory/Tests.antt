-- ===== src/Cache/Memory/Tests.antt =====
-- The theorems about the cache at concrete entries (src/cache/memory.rs).
use express402_relayer.Common.{
  ℕ, ◌≤◌, ◌≡◌, ◌≢◌, none, some, List, [], ◌∷◌, String, length, Map, string_eq, Unique, refl, lookup,
  arith,
}
use express402_relayer.Cache.Memory.{CacheEntry, MemoryCache, get, set, new}
use express402_relayer.Cache.Memory.Values.{get-set}
use express402_relayer.Cache.Memory.Calls.{Call, gets, sets, sets_multiple, deletes, cleans, run}
use express402_relayer.Cache.Memory.Traces.{OrderedItems, run-new-length}

abbrev entry : ℕ → ℕ → CacheEntry ℕ
entry value last_accessed = record {
  value = value;
  created_at = 1;
  expires_at = some 100;
  access_count = 0;
  last_accessed = last_accessed;
}

abbrev two_entries : Map String (CacheEntry ℕ)
two_entries = ("a", entry 1 20) ∷ ("b", entry 2 10) ∷ []

abbrev cache : MemoryCache ℕ
cache = record { entries = two_entries; max_size = 2; default_ttl = 50; cleanup_interval = 10 }

-- Between the `set` and the `get`: another `get`, a cleanup, and the deletion of another key.
abbrev later : List (Call ℕ × ℕ × ℕ)
later = (gets "a", 32, 33) ∷ (cleans, 34, 35) ∷ (deletes "a", 36, 36) ∷ (gets "c", 37, 38) ∷ []

two_entries-Unique : Unique two_entries
unfolding lookup
two_entries-Unique = (refl, (refl, tt))

a_not_c : ◌≢◌ {A = String} "a" "c"
a_not_c e = ground (arith, (string_eq.beq_iff "a" "c").1 e)

get-set_example : (get ℕ (run ℕ (set ℕ cache "c" 3 none 30 31) later) "c" 40 41).1 ≡ some 3
get-set_example =
    get-set ℕ cache "c" 3 none 30 31 40 41 later two_entries-Unique
      (omega arith, (omega arith, (a_not_c, (omega arith, tt))))

cons_not_nil : (p : String × CacheEntry ℕ) (m : Map String (CacheEntry ℕ)) → (p ∷ m) ≢ []
cons_not_nil p m e = cc

abbrev calls : List (Call ℕ × ℕ × ℕ)
calls =
    (sets "a" 1 none, 1, 2)
    ∷ (gets "a", 3, 4)
    ∷ (sets_multiple (("b", 2, 5, 6) ∷ ("c", 3, 7, 8) ∷ []) none, 5, 8)
    ∷ []

items_in_order : OrderedItems ℕ 4 (("b", 2, 5, 6) ∷ ("c", 3, 7, 8) ∷ []) 8
items_in_order = (omega arith, omega arith, (omega arith, omega arith, omega arith))

run-new-length_example :
    length (run ℕ (new ℕ 1 50 10) calls).entries ≤ (run ℕ (new ℕ 1 50 10) calls).max_size
run-new-length_example = run-new-length ℕ 1 50 10 0 calls (omega arith) (
  omega arith,
  omega arith,
  tt,
  (omega arith, omega arith, tt, (omega arith, omega arith, items_in_order, tt)),
)
