-- ===== src/Common/Lists.antt =====
-- Vectors and their iterators: `len`, `retain`, `any`, `count`, and what the components share about
-- them.
use Prim.Native.Nat.{ℕ, zero, suc, ◌+◌, ◌≤◌}
use mathlib.Core.Path.{◌≡◌, refl, subst}
use mathlib.Core.Bool.{Bool, true, false, ◌||◌, not}
use mathlib.Core.List.{List, [], ◌∷◌, ◌++◌, Mem, Memᴰ, mem-cons, not-mem-nil}
use mathlib.Core.Logic.{inl, inr}
use mathlib.Core.Logic.Or
use mathlib.Core.Option.{Option, none, some}
use native.Mathlib.Omega.{arith}
use express402_relayer.Common.Tests.{if◌then◌else◌, ltb, Bool-cases, Option-cases}

module _ {ℓ} {A : Type ℓ} where
  abbrev pub length : List A → ℕ
  length [] = 0
  length (x ∷ xs) = suc (length xs)

  abbrev pub get_elem? : List A → ℕ → Option A
  get_elem? [] i = none
  get_elem? (x ∷ xs) zero = some x
  get_elem? (x ∷ xs) (suc i) = get_elem? xs i

  -- `iter_mut().find()`, and the change made to what it finds.
  unfoldable pub update_first : (A → Bool) → (A → A) → List A → List A
  update_first p f [] = []
  update_first p f (x ∷ xs) = if p x then f x ∷ xs else x ∷ update_first p f xs

  -- `retain` of a vector, and `iter().filter()`.
  unfoldable pub retain : (A → Bool) → List A → List A
  retain p [] = []
  retain p (x ∷ xs) = if p x then x ∷ retain p xs else retain p xs

  -- `iter().any()`.
  unfoldable pub any : (A → Bool) → List A → Bool
  any p [] = false
  any p (x ∷ xs) = p x || any p xs

  -- `iter().find()`.
  unfoldable pub find : (A → Bool) → List A → Option A
  find p [] = none
  find p (x ∷ xs) = if p x then some x else find p xs

  abbrev pub keep_head : A → Option (A × List A) → Option (A × List A)
  keep_head x none = none
  keep_head x (some (y, rest)) = some (y, x ∷ rest)

  -- `iter().position()`, then `remove` at that place: the element, and the rest in order.
  unfoldable pub take_first : (A → Bool) → List A → Option (A × List A)
  take_first p [] = none
  take_first p (x ∷ xs) = if p x then some (x, xs) else keep_head x (take_first p xs)

  -- `iter().filter().count()`.
  unfoldable pub count_if : (A → Bool) → List A → ℕ
  count_if p [] = 0
  count_if p (x ∷ xs) = let rest = count_if p xs in if p x then suc rest else rest

  abbrev pub All {κ} : (A → Type κ) → List A → Type κ
  All P [] = Unit
  All P (x ∷ xs) = P x × All P xs

  pub length-append : (xs ys : List A) → length (xs ++ ys) ≡ length xs + length ys
  length-append [] ys = omega arith
  length-append (x ∷ xs) ys = omega (arith, length-append xs ys)

  pub length-retain-le : (p : A → Bool) (xs : List A) → length (retain p xs) ≤ length xs
  unfolding retain
  length-retain-le p [] = omega arith
  length-retain-le p (x ∷ xs) = ground (arith, length-retain-le p xs)

  pub any-append : (p : A → Bool) (xs ys : List A) → any p (xs ++ ys) ≡ (any p xs || any p ys)
  unfolding any
  any-append p [] ys = refl
  any-append p (x ∷ xs) ys = ground (arith, any-append p xs ys)

  -- What `retain` drops is not there any more.
  pub any-retain-not : (p : A → Bool) (xs : List A) → any p (retain (λ x. not (p x)) xs) ≡ false
  unfolding any retain
  any-retain-not p [] = refl
  any-retain-not p (x ∷ xs) = ground (arith, any-retain-not p xs)

  pub retain-any-false :
      (p : A → Bool) (xs : List A) → any p xs ≡ false → retain (λ x. not (p x)) xs ≡ xs
  unfolding any retain
  retain-any-false p [] h = refl
  retain-any-false p (x ∷ xs) h = ground (arith, retain-any-false p xs)

  -- Dropping what passes a test shortens the list exactly when something passes it.
  pub length-retain-not :
      (p : A → Bool) (xs : List A)
      → ltb (length (retain (λ x. not (p x)) xs)) (length xs) ≡ any p xs
  unfolding any retain
  length-retain-not p [] = refl
  length-retain-not p (x ∷ xs) =
      ground (arith, length-retain-not p xs, length-retain-le (λ y. not (p y)) xs)

  -- A test that no dropped element passes sees no difference.
  pub any-retain_other :
      (p q : A → Bool) (xs : List A)
      → ((x : A) → q x ≡ true → p x ≡ true)
      → any q (retain p xs) ≡ any q xs
  unfolding any retain
  any-retain_other p q [] h = refl
  any-retain_other p q (x ∷ xs) h = ground (arith, h x, any-retain_other p q xs h)

  pub find-some : (p : A → Bool) (xs : List A) (x : A) → find p xs ≡ some x → p x ≡ true
  unfolding find
  find-some p [] x h = cc
  find-some p (y ∷ ys) x h = ground (arith, find-some p ys x)

  -- What is there is found.
  pub find-any : (p : A → Bool) (xs : List A) → any p xs ≡ true → (x : A) × (find p xs ≡ some x)
  unfolding find any
  find-any p [] h = absurd (ground arith)
  find-any p (y ∷ ys) h = elim (Bool-cases (p y)) [
    | inl hit ↦ (y, rw hit)
    | inr miss ↦ let (x, found) = find-any p ys (ground arith) in (x, rw miss found)
  ]

  pub take_first-any : (p : A → Bool) (xs : List A) → take_first p xs ≡ none → any p xs ≡ false
  unfolding any take_first
  take_first-any p [] h = refl
  take_first-any p (x ∷ xs) h = ground (arith, take_first-any p xs)

  -- The element that is taken out passes the test, and any other test sees it and the rest.
  pub take_first-some :
      (p q : A → Bool) (xs : List A) (y : A) (rest : List A)
      → take_first p xs ≡ some (y, rest)
      → (p y ≡ true) × (length xs ≡ suc (length rest)) × (any q xs ≡ (q y || any q rest))
  unfolding take_first any
  take_first-some p q [] y rest h = cc
  take_first-some p q (x ∷ xs) y rest h = elim (Option-cases (take_first p xs)) [
    | inl e ↦ ground arith
    | inr (f, e) ↦ ground (arith, take_first-some p q xs f.0 f.1 e)
  ]

  pub count_if-append :
      (p : A → Bool) (xs ys : List A) → count_if p (xs ++ ys) ≡ count_if p xs + count_if p ys
  unfolding count_if
  count_if-append p [] ys = omega arith
  count_if-append p (x ∷ xs) ys = ground (arith, count_if-append p xs ys)

  pub retain-append :
      (p : A → Bool) (xs ys : List A) → retain p (xs ++ ys) ≡ retain p xs ++ retain p ys
  unfolding retain
  retain-append p [] ys = refl
  retain-append p (x ∷ xs) ys = ground (arith, retain-append p xs ys)

  module _ {κ} (P : A → Type κ) where
    pub All-append : (xs ys : List A) → All P xs → All P ys → All P (xs ++ ys)
    All-append [] ys hx hy = hy
    All-append (x ∷ xs) ys hx hy = (hx.0, All-append xs ys hx.1 hy)

    pub All-retain : (p : A → Bool) (xs : List A) → All P xs → All P (retain p xs)
    unfolding retain
    All-retain p [] h = h
    All-retain p (x ∷ xs) h = ground (arith, All-retain p xs h.1)

    pub All-take_first :
        (p : A → Bool) (xs : List A) (y : A) (rest : List A)
        → take_first p xs ≡ some (y, rest)
        → All P xs
        → P y × All P rest
    unfolding take_first
    All-take_first p [] y rest e h = cc
    All-take_first p (x ∷ xs) y rest e h = elim (Bool-cases (p x)) [
      | inl hit ↦
          let found : ◌≡◌ {A = A × List A} (x, xs) (y, rest) = ground arith in
          subst (λ f. P f.0 × All P f.1) found h
      | inr miss ↦ elim (Option-cases (take_first p xs)) [
        | inl none_left ↦ absurd (ground arith)
        | inr (f, later) ↦
            let found : ◌≡◌ {A = A × List A} (f.0, x ∷ f.1) (y, rest) = ground arith in
            let (hy, hrest) = All-take_first p xs f.0 f.1 later h.1 in
            subst (λ g. P g.0 × All P g.1) found (hy, (h.0, hrest))
      ]
    ]

    pub All-map {μ} : (Q : A → Type μ) → ((a : A) → P a → Q a) → (xs : List A) → All P xs → All Q xs
    All-map Q f [] h = tt
    All-map Q f (x ∷ xs) h = (f x h.0, All-map Q f xs h.1)

    pub All-find : (p : A → Bool) (xs : List A) (x : A) → All P xs → find p xs ≡ some x → P x
    unfolding find
    All-find p [] x h e = cc
    All-find p (y ∷ ys) x h e = ground (arith, All-find p ys x h.1)

    pub All-mem : ((a : A) → IsProp (P a)) → (xs : List A) (a : A) → Mem a xs → All P xs → P a
    All-mem prop [] a m h = absurd (not-mem-nil m)
    All-mem prop (x ∷ xs) a m h =
        Or.elim (prop a) (mem-cons.0 m) (λ e. rw e h.0) (λ n. All-mem prop xs a n h.1)

    pub All-memᴰ : (xs : List A) (a : A) → Memᴰ a xs → All P xs → P a
    All-memᴰ [] a m h = elim m [ ]
    All-memᴰ (x ∷ xs) a (Memᴰ.head e) h = rw e h.0
    All-memᴰ (x ∷ xs) a (Memᴰ.tail m) h = All-memᴰ xs a m h.1
