-- ===== src/Security/Replay/Queries.antt =====
-- How the queries agree with the check (src/security/replay.rs).
use express402_relayer.Common.{
  ℕ, ◌-◌, ◌≤◌, ◌<◌, ◌^◌, ◌≡◌, refl, inl, inr, Bool, true, false, Option, none, some, List, [], ◌∷◌,
  ==_iff, if◌then◌else◌, retain, any, All, Map, lookup, nat_eq, Unique, String, arith,
}
use express402_relayer.Types.Error.{Message, Answer-cases, replay_attack, ok, err}
use express402_relayer.Security.Replay.{
  ReplayProtectionEntry, ReplayProtection, Chrono, is_recent, is_replay, user_entries, replay_error,
  record_in, max_nonce, prune, window, check_and_record, is_nonce_used, get_next_nonce, cleanup,
}

max_nonce-bound :
    (d now m b : ℕ) (xs : List ReplayProtectionEntry)
    → m < b
    → All (λ e. e.nonce < b) xs
    → max_nonce d now m xs < b
unfolding max_nonce
max_nonce-bound d now m b [] h k = h
max_nonce-bound d now m b (x ∷ xs) h k =
    ground (arith, max_nonce-bound d now m b xs h k.1, max_nonce-bound d now x.nonce b xs k.0 k.1)

-- A nonce above the maximum is no replay.
max_nonce-fresh :
    (d now m n : ℕ) (xs : List ReplayProtectionEntry)
    → max_nonce d now m xs < n
    → (m < n) × (any (is_replay n d now) xs ≡ false)
unfolding max_nonce any
max_nonce-fresh d now m n [] h = (h, refl)
max_nonce-fresh d now m n (x ∷ xs) h =
    ground (arith, max_nonce-fresh d now m n xs, max_nonce-fresh d now x.nonce n xs)

any-replay-retain :
    (n d t now : ℕ) (xs : List ReplayProtectionEntry)
    → t ≤ now
    → any (is_replay n d now) (retain (is_recent d t) xs) ≡ any (is_replay n d now) xs
unfolding any retain
any-replay-retain n d t now [] h = refl
any-replay-retain n d t now (x ∷ xs) h = ground (arith, any-replay-retain n d t now xs h)

lookup-prune :
    (keep : ReplayProtectionEntry → Bool) (a : ℕ) (m : Map ℕ (List ReplayProtectionEntry))
    → Unique m
    → user_entries a (prune keep m) ≡ retain keep (user_entries a m)
unfolding user_entries prune lookup retain
lookup-prune keep a [] u = refl
lookup-prune keep a ((b, xs) ∷ m) u = ground (arith, lookup-prune keep a m u.1, ==_iff b a, u.0)

module _ (C : Chrono) where
  open C use {from_std, represents}

  -- `is_nonce_used` foretells the check: a nonce that it calls used is refused as a replay, and one
  -- that it calls unused is accepted.
  is_nonce_used-check_and_record :
      (p : ReplayProtection) (a n now : ℕ) (hash : Option String) (used : Bool)
      → is_nonce_used C p none a n now ≡ ok used
      → (check_and_record C p none a n hash now).1
        ≡ (if used then err (replay_attack (replay_error n a)) else ok true)
  unfolding is_nonce_used check_and_record window record_in
  is_nonce_used-check_and_record p a n now hash used e = ground arith

  -- The nonce that `get_next_nonce` gives is accepted, if no recorded nonce of the user is the last
  -- one of 64 bits.
  get_next_nonce-check_and_record :
      (p : ReplayProtection) (a n now : ℕ) (hash : Option String)
      → All (λ e. e.nonce < 2 ^ 64 - 1) (user_entries a p.entries)
      → get_next_nonce C p none a now ≡ ok n
      → (check_and_record C p none a n hash now).1 ≡ ok true
  unfolding get_next_nonce check_and_record window record_in
  get_next_nonce-check_and_record p a n now hash small e =
      elim (Answer-cases (from_std p.window_duration)) [
        | inl (d, w) ↦
            let mine : List ReplayProtectionEntry = user_entries a p.entries in
            ground (
              arith,
              w,
              max_nonce-fresh d now 0 n mine,
              max_nonce-bound d now 0 (2 ^ 64 - 1) mine (omega arith) small,
            )
        | inr (m, w) ↦ ground arith
      ]

  -- A tick of the cleanup task changes no later answer: a check gives the same result, whenever the
  -- tick came before. (Each user has one list.)
  cleanup-check_and_record :
      (p : ReplayProtection) (poisoned : Option Message) (a n t now : ℕ) (hash : Option String)
      → Unique p.entries
      → t ≤ now
      → (check_and_record C (cleanup C p poisoned t) none a n hash now).1
        ≡ (check_and_record C p none a n hash now).1
  unfolding check_and_record window record_in cleanup
  cleanup-check_and_record p (some m) a n t now hash u h = refl
  cleanup-check_and_record p none a n t now hash u h =
      elim (Answer-cases (from_std p.window_duration)) [
        | inl (d, w) ↦ ground (
          arith,
          w,
          lookup-prune (is_recent d t) a p.entries u,
          any-replay-retain n d t now (user_entries a p.entries) h,
        )
        | inr (m, w) ↦ ground arith
      ]
