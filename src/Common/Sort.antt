-- ===== src/Common/Sort.antt =====
-- `sort_by_key` and `sort_by` of a vector: a stable sort. `less later earlier` says that a later
-- element has to stand before an earlier one.
use mathlib.Core.Path.{◌≡◌, refl}
use mathlib.Core.Bool.{Bool, true, false}
use mathlib.Core.Logic.{inl, inr}
use mathlib.Core.List.{List, [], ◌∷◌, map}
use native.Mathlib.Omega.{arith}
use express402_relayer.Common.Tests.{if◌then◌else◌, Bool-cases}
use express402_relayer.Common.Lists.{All, count_if}

module _ {ℓ} {A : Type ℓ} where
  unfoldable pub insert_sorted : (A → A → Bool) → A → List A → List A
  insert_sorted less x [] = x ∷ []
  insert_sorted less x (y ∷ ys) = if less y x then y ∷ insert_sorted less x ys else x ∷ y ∷ ys

  unfoldable pub sort_by : (A → A → Bool) → List A → List A
  unfolding insert_sorted
  sort_by less [] = []
  sort_by less (x ∷ xs) = insert_sorted less x (sort_by less xs)

  -- No element has to stand before one that stands before it.
  abbrev pub IsSorted : (A → A → Bool) → List A → Type 0
  IsSorted less [] = Unit
  IsSorted less (x ∷ xs) = All (λ y. less y x ≡ false) xs × IsSorted less xs

  pub count_if-insert_sorted :
      (p : A → Bool) (less : A → A → Bool) (x : A) (xs : List A)
      → count_if p (insert_sorted less x xs) ≡ count_if p (x ∷ xs)
  unfolding insert_sorted count_if
  count_if-insert_sorted p less x [] = refl
  count_if-insert_sorted p less x (y ∷ ys) = ground (arith, count_if-insert_sorted p less x ys)

  -- Sorting keeps the elements.
  pub count_if-sort_by :
      (p : A → Bool) (less : A → A → Bool) (xs : List A)
      → count_if p (sort_by less xs) ≡ count_if p xs
  unfolding sort_by count_if
  count_if-sort_by p less [] = refl
  count_if-sort_by p less (x ∷ xs) =
      ground (arith, count_if-insert_sorted p less x (sort_by less xs), count_if-sort_by p less xs)

  All-insert_sorted {κ} :
      (P : A → Type κ) (less : A → A → Bool) (x : A) (xs : List A)
      → P x
      → All P xs
      → All P (insert_sorted less x xs)
  unfolding insert_sorted
  All-insert_sorted P less x [] hx h = (hx, tt)
  All-insert_sorted P less x (y ∷ ys) hx h =
      elim (less y x) as (λ b. All P (if b then y ∷ insert_sorted less x ys else x ∷ y ∷ ys)) [
        | true ↦ (h.0, All-insert_sorted P less x ys hx h.1)
        | false ↦ (hx, h)
      ]

  pub All-sort_by {κ} :
      (P : A → Type κ) (less : A → A → Bool) (xs : List A) → All P xs → All P (sort_by less xs)
  unfolding sort_by
  All-sort_by P less [] h = h
  All-sort_by P less (x ∷ xs) h =
      All-insert_sorted P less x (sort_by less xs) h.0 (All-sort_by P less xs h.1)

  -- The laws of a strict weak order, on the elements that satisfy `P`.
  pub record IsOrder {κ} (P : A → Type κ) (less : A → A → Bool) : Type (ℓ ⊔ κ) where
    pub asym : (a b : A) → P a → P b → less a b ≡ true → less b a ≡ false
    pub trans :
        (a b c : A) → P a → P b → P c → less b a ≡ false → less c b ≡ false → less c a ≡ false

  module _ {κ} (P : A → Type κ) (less : A → A → Bool) (order : IsOrder P less) where
    not_before :
        (x y : A) (zs : List A)
        → P x
        → P y
        → less y x ≡ false
        → All P zs
        → All (λ z. less z y ≡ false) zs
        → All (λ z. less z x ≡ false) zs
    not_before x y [] hx hy e hz hs = tt
    not_before x y (z ∷ zs) hx hy e hz hs =
        (order.trans x y z hx hy hz.0 e hs.0, not_before x y zs hx hy e hz.1 hs.1)

    insert_sorted-IsSorted :
        (x : A) (xs : List A)
        → P x
        → All P xs
        → IsSorted less xs
        → IsSorted less (insert_sorted less x xs)
    unfolding insert_sorted
    insert_sorted-IsSorted x [] hx h s = (tt, tt)
    insert_sorted-IsSorted x (y ∷ ys) hx h s = elim (Bool-cases (less y x)) [
      | inl before ↦ rw before (
        All-insert_sorted (λ z. less z y ≡ false) less x ys (order.asym y x h.0 hx before) s.0,
        insert_sorted-IsSorted x ys hx h.1 s.1,
      )
      | inr after ↦ rw after ((after, not_before x y ys hx h.0 after h.1 s.0), s)
    ]

    pub sort_by-IsSorted : (xs : List A) → All P xs → IsSorted less (sort_by less xs)
    unfolding sort_by
    sort_by-IsSorted [] h = tt
    sort_by-IsSorted (x ∷ xs) h =
        insert_sorted-IsSorted x (sort_by less xs) h.0 (All-sort_by P less xs h.1)
          (sort_by-IsSorted xs h.1)

pub count_if-map {ℓ κ} :
    {A : Type ℓ} {B : Type κ} (p : B → Bool) (f : A → B) (xs : List A)
    → count_if p (map f xs) ≡ count_if (λ x. p (f x)) xs
unfolding count_if
count_if-map p f [] = refl
count_if-map p f (x ∷ xs) = ground (arith, count_if-map p f xs)
