-- ===== src/Wallet/Rotation/Cover.antt =====
-- Which wallets a rotation names, and how often it counts them (src/wallet/rotation.rs).
use express402_relayer.Common.{
  ℕ, zero, suc, ◌+◌, ◌-◌, ◌*◌, ◌/◌, ◌%◌, ◌^◌, ◌<◌, ◌≡◌, refl, sym, ap, ◌∙◌, subst, some, List, [],
  ◌∷◌, ◌++◌, ltb, ◌==◌, length, length-append, get_elem?, map, count_if, count_if-append,
  count_if-map, count_if-sort_by, nat_eq, arith,
}
use native.Mathlib.Nat.{add-zero, zero-add, mod-eq-sub-mod, suc-mul, mod-add-div'}
use mathlib.Core.List.{append_assoc, append-nil}
use express402_relayer.Common.Float.{F64}
use express402_relayer.Types.Error.{ok}
use express402_relayer.Types.Wallet.{WalletInfo, u64}
use express402_relayer.Wallet.Rotation.{rotate_from, sorted_by_key, by_performance}

-- How often an address stands in a list.
abbrev pub occurrences : ℕ → List ℕ → ℕ
occurrences a l = count_if (λ b. b == a) l

mod_of : (k m r : ℕ) → r < m → (k * m + r) % m ≡ r
mod_of zero m r h = grind arith
mod_of (suc k) m r h =
    let step : suc k * m + r ≡ k * m + r + m = grind arith in
    let less : k * m + r + m - m ≡ k * m + r = omega arith in
    rw step (mod-eq-sub-mod {n = k * m + r + m} {m = m} (omega arith) ∙ rw less (mod_of k m r h))

module _ (F : F64) where
  -- How many wallets have an address.
  abbrev pub wallets_at : ℕ → List (WalletInfo F) → ℕ
  wallets_at a ws = count_if (λ (w : WalletInfo F). w.address == a) ws

  abbrev pub addresses : List (WalletInfo F) → List ℕ
  addresses ws = map (λ (w : WalletInfo F). w.address) ws

  pub sorted_by_key-occurrences :
      (key : WalletInfo F → ℕ) (a : ℕ) (ws : List (WalletInfo F))
      → occurrences a (sorted_by_key F key ws) ≡ wallets_at a ws
  unfolding sorted_by_key
  sorted_by_key-occurrences key a ws =
      count_if-map (λ b. b == a) (λ (p : ℕ × ℕ). p.0) _
      ∙ count_if-sort_by (λ (p : ℕ × ℕ). p.0 == a) (λ (p q : ℕ × ℕ). ltb p.1 q.1) _
      ∙ count_if-map (λ (p : ℕ × ℕ). p.0 == a) (λ (w : WalletInfo F). (w.address, key w)) ws

  pub by_performance-occurrences :
      (a : ℕ) (ws : List (WalletInfo F)) → occurrences a (by_performance F ws) ≡ wallets_at a ws
  unfolding by_performance
  by_performance-occurrences a ws =
      count_if-map (λ b. b == a) (λ (p : ℕ × F.Carrier). p.0) _
      ∙ count_if-sort_by (λ (p : ℕ × F.Carrier). p.0 == a) (λ (p q : ℕ × F.Carrier). F.lt q.1 p.1) _
      ∙ count_if-map (λ (p : ℕ × F.Carrier). p.0 == a)
          (λ (w : WalletInfo F). (w.address, w.success_rate)) ws

  get_elem?-append :
      (pre rest : List (WalletInfo F)) (w : WalletInfo F)
      → get_elem? (pre ++ w ∷ rest) (length pre) ≡ some w
  get_elem?-append [] rest w = refl
  get_elem?-append (x ∷ pre) rest w = get_elem?-append pre rest w

  -- From an index that points behind `pre`, the loop goes through `mid` and then on.
  rotate_from-through :
      (mid pre post ws : List (WalletInfo F)) (n k i j : ℕ) (l : List ℕ)
      → ws ≡ pre ++ (mid ++ post)
      → i ≡ k * length ws + length pre
      → i + length mid < 2 ^ 64
      → rotate_from F n (i + length mid) ws ≡ (j, ok l)
      → rotate_from F (length mid + n) i ws ≡ (j, ok (addresses mid ++ l))
  unfolding rotate_from
  rotate_from-through [] pre post ws n k i j l split e small next =
      rw zero-add (subst (λ x. rotate_from F n x ws ≡ (j, ok l)) (add-zero i) next)
  rotate_from-through (w ∷ mid) pre post ws n k i j l split e small next =
      let whole : length ws ≡ length pre + suc (length (mid ++ post)) =
        ap length split ∙ length-append pre (w ∷ (mid ++ post)) in
      let here : i % length ws ≡ length pre =
        ap (λ x. x % length ws) e ∙ mod_of k (length ws) (length pre) (omega arith) in
      let at_w : get_elem? ws (i % length ws) ≡ some w =
        rw here (rw split (get_elem?-append pre (mid ++ post) w)) in
      let moved : i + length {A = WalletInfo F} (w ∷ mid) ≡ i + 1 + length mid = omega arith in
      let rest : rotate_from F (length mid + n) (i + 1) ws ≡ (j, ok (addresses mid ++ l)) =
        rotate_from-through mid (pre ++ w ∷ []) post ws n k (i + 1) j l
          (split ∙ sym (append_assoc pre (w ∷ []) (mid ++ post)))
          (omega (arith, length-append pre (w ∷ []))) (omega arith)
          (subst (λ x. rotate_from F n x ws ≡ (j, ok l)) moved next) in
      let same : u64 (i + 1) ≡ i + 1 = omega arith in
      let unrolled : length {A = WalletInfo F} (w ∷ mid) + n ≡ suc (length mid + n) = omega arith in
      rw unrolled (ground arith)

  -- One round robin over the wallets from any index: those behind the index, then those before it.
  rotate_from-round :
      (pre suf : List (WalletInfo F)) (i k : ℕ)
      → i ≡ k * length (pre ++ suf) + length pre
      → i + length (pre ++ suf) < 2 ^ 64
      → rotate_from F (length (pre ++ suf)) i (pre ++ suf)
        ≡ (i + length (pre ++ suf), ok (addresses suf ++ addresses pre))
  unfolding rotate_from
  rotate_from-round pre suf i k e small =
      let count = length-append pre suf in
      let back : i + length suf ≡ suc k * length (pre ++ suf) + length {A = WalletInfo F} [] =
        rw (suc-mul k (length (pre ++ suf))) (omega arith) in
      let again : rotate_from F (length pre + 0) (i + length suf) (pre ++ suf)
          ≡ (i + length (pre ++ suf), ok (addresses pre ++ [])) =
        rotate_from-through pre [] suf (pre ++ suf) 0 (suc k) (i + length suf)
          (i + length (pre ++ suf)) [] refl back (omega arith)
          (ap (λ x. (x, ok [])) (omega arith)) in
      let through =
        rotate_from-through suf pre [] (pre ++ suf) (length pre + 0) k i (i + length (pre ++ suf))
          (addresses pre ++ []) (rw append-nil refl) e (omega arith) again in
      let rounds : length suf + (length pre + 0) ≡ length (pre ++ suf) = omega arith in
      subst
        (λ x.
          rotate_from F x i (pre ++ suf)
          ≡ (i + length (pre ++ suf), ok (addresses suf ++ addresses pre)))
        rounds
        (subst
          (λ y.
            rotate_from F (length suf + (length pre + 0)) i (pre ++ suf)
            ≡ (i + length (pre ++ suf), ok (addresses suf ++ y)))
          (append-nil (addresses pre)) through)

  -- Any place in a list splits it.
  split_at :
      (k : ℕ) (ws : List (WalletInfo F))
      → k < suc (length ws)
      → (pre : List (WalletInfo F)) × (suf : List (WalletInfo F)) × (ws ≡ pre ++ suf)
        × (length pre ≡ k)
  split_at zero ws h = ([], ws, refl, refl)
  split_at (suc k) [] h = absurd (omega arith)
  split_at (suc k) (w ∷ ws) h =
      let (pre, suf, e, n) = split_at k ws (omega arith) in
      (w ∷ pre, suf, ap (λ l. w ∷ l) e, omega arith)

  occurrences-split :
      (b : ℕ) (ws pre suf : List (WalletInfo F))
      → ws ≡ pre ++ suf
      → occurrences b (addresses suf ++ addresses pre) ≡ wallets_at b ws
  occurrences-split b ws pre suf e =
      count_if-append (λ c. c == b) (addresses suf) (addresses pre)
      ∙ rw
          (
            count_if-map (λ c. c == b) (λ (w : WalletInfo F). w.address) suf,
            count_if-map (λ c. c == b) (λ (w : WalletInfo F). w.address) pre,
          )
          (rw e (omega (arith, count_if-append (λ (w : WalletInfo F). w.address == b) pre suf)))

  rotate_from-nil : (i : ℕ) → rotate_from F 0 i [] ≡ (i + 0, ok [])
  unfolding rotate_from
  rotate_from-nil i = ap (λ x. (x, ok [])) (omega arith)

  -- A round from any index names each wallet once, and the next round names them in the same order.
  pub rotate_from-rounds :
      (ws : List (WalletInfo F)) (i : ℕ)
      → i + (length ws + length ws) < 2 ^ 64
      → (l : List ℕ) × (rotate_from F (length ws) i ws ≡ (i + length ws, ok l))
        × (rotate_from F (length ws) (i + length ws) ws ≡ (i + length ws + length ws, ok l))
        × ((a : ℕ) → occurrences a l ≡ wallets_at a ws)
  rotate_from-rounds [] i small =
      ([], rotate_from-nil i, rotate_from-nil (i + 0), λ a. occurrences-split a [] [] [] refl)
  rotate_from-rounds (w ∷ ws) i small =
      let n = suc (length ws) in
      let (pre, suf, e, place) = split_at (i % n) (w ∷ ws) (omega arith) in
      let size : length (pre ++ suf) ≡ n = ap length (sym e) in
      let first : i ≡ i / n * length (pre ++ suf) + length pre =
        rw size (omega (arith, mod-add-div' i n)) in
      let second : i + length (pre ++ suf) ≡ suc (i / n) * length (pre ++ suf) + length pre =
        rw (suc-mul (i / n) (length (pre ++ suf))) (omega arith) in
      let goes = λ (l : List (WalletInfo F)) (j : ℕ).
        rotate_from F (length l) j l ≡ (j + length l, ok (addresses suf ++ addresses pre)) in
      (
        addresses suf ++ addresses pre,
        subst (λ l. goes l i) (sym e) (rotate_from-round pre suf i (i / n) first (omega arith)),
        subst (λ l. goes l (i + length l)) (sym e)
            (rotate_from-round pre suf (i + length (pre ++ suf)) (suc (i / n)) second
              (omega arith)),
        λ a. occurrences-split a (w ∷ ws) pre suf e,
      )
