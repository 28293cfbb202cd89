-- ===== src/Common/Maps.antt =====
-- `HashMap` as an association list with one entry for each key; its iteration order is that of the
-- list.
use Prim.Native.Nat.{suc, ◌≤◌}
use mathlib.Core.Path.{◌≡◌, refl, ◌∙◌}
use mathlib.Core.Bool.{Bool, true, false, ◌||◌}
use mathlib.Core.List.{List, [], ◌∷◌}
use mathlib.Core.Option.{Option, none, some}
use native.Mathlib.Omega.{arith}
use express402_relayer.Common.Tests.{Eq, if◌then◌else◌}
use express402_relayer.Common.Lists.{length, retain}

abbrev pub Map {ℓ} : Type ℓ → Type ℓ → Type ℓ
Map K V = List (K × V)

module _ {ℓ} {K V : Type ℓ} ⦃e : Eq K⦄ where
  -- `get`.
  unfoldable pub lookup : K → Map K V → Option V
  lookup k [] = none
  lookup k ((j, v) ∷ m) = if e.beq j k then some v else lookup k m

  -- `insert`: replaces the value of a key that is there.
  unfoldable pub insert : K → V → Map K V → Map K V
  insert k v [] = (k, v) ∷ []
  insert k v ((j, w) ∷ m) = if e.beq j k then (k, v) ∷ m else (j, w) ∷ insert k v m

  unfoldable pub remove : K → Map K V → Map K V
  remove k [] = []
  remove k ((j, w) ∷ m) = if e.beq j k then remove k m else (j, w) ∷ remove k m

  -- `get_mut`, and the change made to what it finds.
  unfoldable pub update : K → (V → V) → Map K V → Map K V
  update k f [] = []
  update k f ((j, w) ∷ m) = if e.beq j k then (j, f w) ∷ m else (j, w) ∷ update k f m

  unfoldable pub contains_key : K → Map K V → Bool
  unfolding lookup
  contains_key k m = elim (lookup k m) [ none ↦ false | some _ ↦ true ]

  pub lookup-insert :
      (k j : K) (v : V) (m : Map K V)
      → lookup j (insert k v m) ≡ (if e.beq k j then some v else lookup j m)
  unfolding lookup insert
  lookup-insert k j v [] = refl
  lookup-insert k j v ((i, w) ∷ m) =
      ground (arith, e.beq_iff k j, e.beq_iff i k, e.beq_iff i j, lookup-insert k j v m)

  pub lookup_inserted :
      (k j : K) (v : V) (m : Map K V) → e.beq k j ≡ true → lookup j (insert k v m) ≡ some v
  lookup_inserted k j v m same = lookup-insert k j v m ∙ rw same refl

  pub lookup_kept :
      (k j : K) (v : V) (m : Map K V) → e.beq k j ≡ false → lookup j (insert k v m) ≡ lookup j m
  lookup_kept k j v m other = lookup-insert k j v m ∙ rw other refl

  pub lookup-update :
      (k j : K) (f : V → V) (m : Map K V)
      → lookup j (update k f m) ≡ (
          if e.beq k j then elim (lookup j m) [ none ↦ none | some v ↦ some (f v) ] else lookup j m)
  unfolding lookup update
  lookup-update k j f [] = ground arith
  lookup-update k j f ((i, w) ∷ m) =
      ground (arith, e.beq_iff k j, e.beq_iff i k, e.beq_iff i j, lookup-update k j f m)

  pub length-update : (k : K) (f : V → V) (m : Map K V) → length (update k f m) ≡ length m
  unfolding update
  length-update k f [] = refl
  length-update k f ((i, w) ∷ m) = ground (arith, length-update k f m)

  pub lookup-remove :
      (k j : K) (m : Map K V) → lookup j (remove k m) ≡ (if e.beq k j then none else lookup j m)
  unfolding lookup remove
  lookup-remove k j [] = ground arith
  lookup-remove k j ((i, w) ∷ m) =
      ground (arith, e.beq_iff k j, e.beq_iff i k, e.beq_iff i j, lookup-remove k j m)

  pub contains_key-insert :
      (k j : K) (v : V) (m : Map K V)
      → contains_key j (insert k v m) ≡ (e.beq k j || contains_key j m)
  unfolding contains_key
  contains_key-insert k j v m = ground (arith, lookup-insert k j v m)

  -- One entry for each key.
  abbrev pub Unique : Map K V → Type ℓ
  Unique [] = Unit
  Unique ((k, v) ∷ m) = (lookup k m ≡ none) × Unique m

  pub insert-Unique : (k : K) (v : V) (m : Map K V) → Unique m → Unique (insert k v m)
  unfolding insert lookup
  insert-Unique k v [] u = (refl, tt)
  insert-Unique k v ((i, w) ∷ m) u =
      ground (arith, e.beq_iff i k, e.beq_iff k i, lookup-insert k i v m, insert-Unique k v m u.1)

  pub remove-Unique : (k : K) (m : Map K V) → Unique m → Unique (remove k m)
  unfolding remove
  remove-Unique k [] u = u
  remove-Unique k ((i, w) ∷ m) u =
      ground (arith, e.beq_iff k i, lookup-remove k i m, remove-Unique k m u.1)

  pub update-Unique : (k : K) (f : V → V) (m : Map K V) → Unique m → Unique (update k f m)
  unfolding update
  update-Unique k f [] u = u
  update-Unique k f ((i, w) ∷ m) u =
      ground (arith, e.beq_iff k i, lookup-update k i f m, update-Unique k f m u.1)

  pub length-remove-le : (k : K) (m : Map K V) → length (remove k m) ≤ length m
  unfolding remove
  length-remove-le k [] = omega arith
  length-remove-le k ((i, w) ∷ m) = ground (arith, length-remove-le k m)

  -- Removing a key that is there makes the map shorter.
  pub length-remove_present :
      (k : K) (m : Map K V) (v : V) → lookup k m ≡ some v → suc (length (remove k m)) ≤ length m
  unfolding lookup remove
  length-remove_present k [] v h = absurd (ground arith)
  length-remove_present k ((i, w) ∷ m) v h =
      ground (arith, length-remove-le k m, length-remove_present k m v)

  pub length-insert-le : (k : K) (v : V) (m : Map K V) → length (insert k v m) ≤ suc (length m)
  unfolding insert
  length-insert-le k v [] = omega arith
  length-insert-le k v ((i, w) ∷ m) = ground (arith, length-insert-le k v m)

  pub length-insert_present :
      (k : K) (v w : V) (m : Map K V) → lookup k m ≡ some w → length (insert k v m) ≡ length m
  unfolding lookup insert
  length-insert_present k v w [] h = absurd (ground arith)
  length-insert_present k v w ((i, u) ∷ m) h = ground (arith, length-insert_present k v w m)

module _ {ℓ} {K V : Type ℓ} where
  -- `retain` of a map whose test reads the value alone.
  abbrev pub retain_values : (V → Bool) → Map K V → Map K V
  retain_values p = retain (λ entry. p entry.1)
