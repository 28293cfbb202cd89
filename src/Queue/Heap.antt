-- ===== src/Queue/Heap.antt =====
-- The `BinaryHeap` of the scheduler, over a comparison `cmp`: a list from which `pop` takes a
-- greatest element. The order of the rest shows nowhere, and which of two equal elements comes first
-- is not specified; here it is the one that stands first.
use mathlib.Core.List.Perm
use mathlib.Core.Path.{subst, sym}
use express402_relayer.Common.{
  suc, length, ◌≡◌, ◌≢◌, refl, inl, inr, List, [], ◌∷◌, Perm, Option, none, some, Ordering, Bool,
  ◌||◌, any, All, All-map, Option-cases, arith,
}

-- What is needed of a comparison: a total preorder.
pub record IsComparison {ℓ} {A : Type ℓ} (cmp : A → A → Ordering) : Type ℓ where
  pub flip : (a b : A) → cmp a b ≢ Ordering.lt → cmp b a ≢ Ordering.gt
  pub trans : (a b c : A) → cmp a b ≢ Ordering.gt → cmp b c ≢ Ordering.gt → cmp a c ≢ Ordering.gt

module _ {ℓ} {A : Type ℓ} (cmp : A → A → Ordering) where
  -- One comparison of `pop`: the greater of two elements, and the rest with the other.
  unfoldable pub prefer : A → A × List A → A × List A
  prefer x (m, rest) = elim (cmp x m) [ Ordering.lt ↦ (m, x ∷ rest) | _ ↦ (x, m ∷ rest) ]

  unfoldable pub pop : List A → Option (A × List A)
  pop [] = none
  pop (x ∷ xs) = elim (pop xs) [ none ↦ some (x, []) | some found ↦ some (prefer x found) ]

  unfoldable pub push : A → List A → List A
  push x xs = x ∷ xs

  -- `x` is not greater than `m`.
  abbrev pub AtMost : A → A → Type 0
  AtMost m x = cmp x m ≢ Ordering.gt

  prefer-perm : (x : A) (f : A × List A) → Perm (x ∷ f.0 ∷ f.1) ((prefer x f).0 ∷ (prefer x f).1)
  unfolding prefer
  prefer-perm x (m, rest) =
      elim (cmp x m)
        as (λ c. Perm (x ∷ m ∷ rest) (
          let f : A × List A = elim c [ Ordering.lt ↦ (m, x ∷ rest) | _ ↦ (x, m ∷ rest) ] in
          f.0 ∷ f.1)) [
            | Ordering.lt ↦ Perm.swap m x rest
            | Ordering.eq ↦ Perm.refl _
            | Ordering.gt ↦ Perm.refl _
          ]

  pub pop-eq-none : (xs : List A) → pop xs ≡ none → xs ≡ []
  unfolding pop
  pop-eq-none [] e = refl
  pop-eq-none (x ∷ xs) e = ground arith

  -- `pop` splits off one element of the heap.
  pub pop-perm : (xs : List A) (f : A × List A) → pop xs ≡ some f → Perm xs (f.0 ∷ f.1)
  unfolding pop
  pop-perm [] f e = cc
  pop-perm (x ∷ xs) f e = elim (Option-cases (pop xs)) [
    | inl none_left ↦
        let only : (x, []) ≡ f = ground arith in
        subst (λ g. Perm (x ∷ xs) (g.0 ∷ g.1)) only (rw (pop-eq-none xs none_left) (Perm.refl _))
    | inr (g, found) ↦
        let chosen : prefer x g ≡ f = ground arith in
        subst (λ g. Perm (x ∷ xs) (g.0 ∷ g.1)) chosen
          (Perm.trans (Perm.cons x (pop-perm xs g found)) (prefer-perm x g))
  ]

  pub length-pop : (xs : List A) (f : A × List A) → pop xs ≡ some f → length xs ≡ suc (length f.1)
  unfolding pop prefer
  length-pop [] f e = cc
  length-pop (x ∷ xs) f e = elim (Option-cases (pop xs)) [
    | inl none_left ↦ ground (arith, pop-eq-none xs none_left)
    | inr (g, found) ↦ ground (arith, length-pop xs g found)
  ]

  prefer-All :
      (laws : IsComparison cmp) (x : A) (f : A × List A)
      → All (AtMost f.0) f.1
      → All (AtMost (prefer x f).0) (prefer x f).1
  unfolding prefer
  prefer-All laws x (m, rest) h = ground (
    arith,
    laws.flip x m,
    λ (p : AtMost x m). All-map (AtMost m) (AtMost x) (λ a q. laws.trans a m x q p) rest h,
  )

  -- No element that stays is greater than the one that `pop` takes.
  pub pop-All :
      (laws : IsComparison cmp) (xs : List A) (f : A × List A)
      → pop xs ≡ some f
      → All (AtMost f.0) f.1
  unfolding pop
  pop-All laws [] f e = cc
  pop-All laws (x ∷ xs) f e = elim (Option-cases (pop xs)) [
    | inl none_left ↦ ground arith
    | inr (g, found) ↦
        let chosen : prefer x g ≡ f = ground arith in
        subst (λ g. All (AtMost g.0) g.1) chosen (prefer-All laws x g (pop-All laws xs g found))
  ]

  or-swap : (a b c : Bool) → (a || (b || c)) ≡ (b || (a || c))
  or-swap a b c = ground arith

  module _ {κ} (P : A → Type κ) where
    All-prefer :
        (x : A) (f : A × List A) → P x → P f.0 → All P f.1 → P (prefer x f).0 × All P (prefer x f).1
    unfolding prefer
    All-prefer x (m, rest) hx hm hr =
        elim (cmp x m)
          as (λ c.
            let f : A × List A = elim c [ Ordering.lt ↦ (m, x ∷ rest) | _ ↦ (x, m ∷ rest) ] in
            P f.0 × All P f.1) [
              | Ordering.lt ↦ (hm, (hx, hr))
              | Ordering.eq ↦ (hx, (hm, hr))
              | Ordering.gt ↦ (hx, (hm, hr))
            ]

    -- What holds of every element of the heap holds of the one taken and of those that stay.
    pub All-pop : (xs : List A) (f : A × List A) → pop xs ≡ some f → All P xs → P f.0 × All P f.1
    unfolding pop
    All-pop [] f e h = cc
    All-pop (x ∷ xs) f e h = elim (Option-cases (pop xs)) [
      | inl none_left ↦
          let only : ◌≡◌ {A = A × List A} (x, []) f = ground arith in
          subst (λ g. P g.0 × All P g.1) only (h.0, tt)
      | inr (g, found) ↦
          let chosen : prefer x g ≡ f = ground arith in
          let (hm, hr) = All-pop xs g found h.1 in
          subst (λ g. P g.0 × All P g.1) chosen (All-prefer x g h.0 hm hr)
    ]

  module _ (p : A → Bool) where
    any-prefer :
        (x : A) (f : A × List A)
        → (p (prefer x f).0 || any p (prefer x f).1) ≡ (p x || (p f.0 || any p f.1))
    unfolding prefer any
    any-prefer x (m, rest) =
        elim (cmp x m)
          as (λ c.
            let f : A × List A = elim c [ Ordering.lt ↦ (m, x ∷ rest) | _ ↦ (x, m ∷ rest) ] in
            (p f.0 || any p f.1) ≡ (p x || (p m || any p rest))) [
              | Ordering.lt ↦ or-swap (p m) (p x) (any p rest)
              | Ordering.eq ↦ refl
              | Ordering.gt ↦ refl
            ]

    -- A test that finds an element finds the one taken or one of those that stay.
    pub any-pop : (xs : List A) (f : A × List A) → pop xs ≡ some f → any p xs ≡ (p f.0 || any p f.1)
    unfolding pop any
    any-pop [] f e = cc
    any-pop (x ∷ xs) f e = elim (Option-cases (pop xs)) [
      | inl none_left ↦
          let only : ◌≡◌ {A = A × List A} (x, []) f = ground arith in
          subst (λ g. (p x || any p xs) ≡ (p g.0 || any p g.1)) only
            (rw (pop-eq-none xs none_left) refl)
      | inr (g, found) ↦
          let chosen : prefer x g ≡ f = ground arith in
          subst (λ g. (p x || any p xs) ≡ (p g.0 || any p g.1)) chosen
            (rw (any-pop xs g found) (sym (any-prefer x g)))
    ]
