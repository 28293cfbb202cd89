-- ===== src/Security/Replay/Window.antt =====
-- No nonce is accepted twice within the window (src/security/replay.rs).
use express402_relayer.Common.{
  ℕ, ◌+◌, ◌<◌, ◌≡◌, refl, ◌⊎◌, inl, inr, Bool, true, ◌&&◌, Option, none, some, List, [], ◌∷◌, ◌++◌,
  String, ◌==◌, ==_iff, if◌then◌else◌, retain, any, any-append, All, Map, lookup, insert,
  lookup-insert, nat_eq, Bool-cases, ◌≢◌, ◌∙◌, sym, subst, ap, arith,
}
use express402_relayer.Types.Error.{Message, answered, replay_attack, Result, ok, err}
use express402_relayer.Security.Replay.{
  ReplayProtectionEntry, ReplayProtection, Chrono, is_recent, is_replay, user_entries, replay_error,
  record_in, prune, window, check_and_record, cleanup,
}

-- A call that changes the state: a check, or a tick of the cleanup task.
pub data Call : Type 0 where
  checks : Option Message → ℕ → ℕ → Option String → ℕ → Call
  cleans : Option Message → ℕ → Call

abbrev pub time : Call → ℕ
time (checks poisoned address nonce tx_hash now) = now
time (cleans poisoned now) = now

-- A test that finds one of the entries that are kept finds it among them.
any-retain :
    (p keep : ReplayProtectionEntry → Bool) (xs : List ReplayProtectionEntry)
    → any (λ e. p e && keep e) (retain keep xs) ≡ any (λ e. p e && keep e) xs
unfolding any retain
any-retain p keep [] = refl
any-retain p keep (x ∷ xs) = ground (arith, any-retain p keep xs)

-- The entry of the nonce `n` that was recorded at time `t`.
abbrev pub is_entry : ℕ → ℕ → ReplayProtectionEntry → Bool
is_entry n t e = (e.nonce == n) && (e.timestamp == t)

retain-is_entry :
    (n t d now : ℕ) (xs : List ReplayProtectionEntry)
    → now < t + d
    → any (is_entry n t) xs ≡ true
    → any (is_entry n t) (retain (is_recent d now) xs) ≡ true
unfolding any retain
retain-is_entry n t d now [] h e = cc
retain-is_entry n t d now (x ∷ xs) h e =
    ground (arith, retain-is_entry n t d now xs h, ==_iff x.timestamp t)

-- An entry of a recent time makes its nonce a replay.
is_entry-replay :
    (n t d now : ℕ) (xs : List ReplayProtectionEntry)
    → now < t + d
    → any (is_entry n t) xs ≡ true
    → any (is_replay n d now) xs ≡ true
unfolding any
is_entry-replay n t d now [] h e = cc
is_entry-replay n t d now (x ∷ xs) h e =
    ground (arith, is_entry-replay n t d now xs h, ==_iff x.timestamp t)

-- The user `a` has the entry.
abbrev pub has_entry : ℕ → ℕ → ℕ → ReplayProtection → Bool
has_entry a n t p = any (is_entry n t) (user_entries a p.entries)

user_entries-insert :
    (a b : ℕ) (xs : List ReplayProtectionEntry) (m : Map ℕ (List ReplayProtectionEntry))
    → user_entries b (insert a xs m) ≡ (if a == b then xs else user_entries b m)
unfolding user_entries
user_entries-insert a b xs m = ground (arith, lookup-insert a b xs m)

prune-is_entry :
    (a n t d now : ℕ) (m : Map ℕ (List ReplayProtectionEntry))
    → now < t + d
    → any (is_entry n t) (user_entries a m) ≡ true
    → any (is_entry n t) (user_entries a (prune (is_recent d now) m)) ≡ true
unfolding user_entries prune lookup any
prune-is_entry a n t d now [] h e = cc
prune-is_entry a n t d now ((b, xs) ∷ m) h e =
    ground (arith, prune-is_entry a n t d now m h, retain-is_entry n t d now xs h)

record_in-has_entry :
    (p : ReplayProtection) (a n t d b k now : ℕ) (hash : Option String)
    → now < t + d
    → has_entry a n t p ≡ true
    → has_entry a n t (record_in p d b k hash now).0 ≡ true
unfolding record_in
record_in-has_entry p a n t d b k now hash h e =
    elim (Bool-cases (any (is_replay k d now) (user_entries b p.entries))) [
      | inl known ↦
          rw (known, record_in)
            (rw (user_entries-insert b a (user_entries b p.entries) p.entries)
              (ground (arith, ==_iff b a, e)))
      | inr fresh ↦
          rw (fresh, record_in)
            (rw (user_entries-insert b a (after (user_entries b p.entries)) p.entries)
              (ground (arith, ==_iff b a, e, kept)))
    ]
  where
    after : List ReplayProtectionEntry → List ReplayProtectionEntry
    after mine =
        retain (is_recent d now)
          (mine ++ (record { timestamp = now; nonce = k; tx_hash = hash }) ∷ [])

    kept :
        any (is_entry n t) (user_entries a p.entries) ≡ true
        → any (is_entry n t) (after (user_entries a p.entries)) ≡ true
    kept there =
        retain-is_entry n t d now _ h
          (any-append (is_entry n t) (user_entries a p.entries) _ ∙ ground (arith, there))

new-is_entry :
    (n now : ℕ) (hash : Option String)
    → any (is_entry n now) ((record { timestamp = now; nonce = n; tx_hash = hash }) ∷ []) ≡ true
unfolding any
new-is_entry n now hash = ground (arith, (==_iff n n).1 refl, (==_iff now now).1 refl)

-- The entry that an accepted check leaves.
record_in-accepted :
    (p : ReplayProtection) (d a n now : ℕ) (hash : Option String)
    → 0 < d
    → (record_in p d a n hash now).1 ≡ ok true
    → has_entry a n now (record_in p d a n hash now).0 ≡ true
unfolding record_in
record_in-accepted p d a n now hash h e =
    elim (Bool-cases (any (is_replay n d now) (user_entries a p.entries))) [
      | inl known ↦ absurd (ground arith)
      | inr fresh ↦
          rw (fresh, record_in)
            (rw (user_entries-insert a a (retain (is_recent d now) longer) p.entries) (
              ground (
                arith,
                (==_iff a a).1 refl,
                retain-is_entry n now d now longer (omega arith) there,
              )))
    ]
  where
    longer : List ReplayProtectionEntry
    longer =
        user_entries a p.entries ++ (record { timestamp = now; nonce = n; tx_hash = hash }) ∷ []

    there : any (is_entry n now) longer ≡ true
    there =
        any-append (is_entry n now) (user_entries a p.entries) _
        ∙ ground (arith, new-is_entry n now hash)

-- A check of a nonce that has a recent entry is refused.
record_in-refused :
    (p : ReplayProtection) (d a n t now : ℕ) (hash : Option String)
    → now < t + d
    → has_entry a n t p ≡ true
    → (record_in p d a n hash now).1 ≡ err (replay_attack (replay_error n a))
unfolding record_in
record_in-refused p d a n t now hash h e =
    ground (arith, is_entry-replay n t d now (user_entries a p.entries) h e)

module _ (C : Chrono) where
  open C use {from_std, represents}

  unfoldable pub step : ReplayProtection → Call → ReplayProtection
  step p (checks poisoned address nonce tx_hash now) =
      (check_and_record C p poisoned address nonce tx_hash now).0
  step p (cleans poisoned now) = cleanup C p poisoned now

  unfoldable pub run : ReplayProtection → List Call → ReplayProtection
  unfolding step
  run p [] = p
  run p (c ∷ cs) = run (step p c) cs

  -- A check either fails before it reads the entries, or is `record_in` with the window.
  check_and_record-cases :
      (p : ReplayProtection) (poisoned : Option Message) (d a n now : ℕ) (hash : Option String)
      → from_std p.window_duration ≡ answered d
      → (((check_and_record C p poisoned a n hash now).0 ≡ p)
          × ((check_and_record C p poisoned a n hash now).1 ≢ ok true))
        ⊎ (check_and_record C p poisoned a n hash now ≡ record_in p d a n hash now)
  unfolding check_and_record window
  check_and_record-cases p poisoned d a n now hash e = ground arith

  record_in-window :
      (p : ReplayProtection) (d a n now : ℕ) (hash : Option String)
      → (record_in p d a n hash now).0.window_duration ≡ p.window_duration
  unfolding record_in
  record_in-window p d a n now hash = ground arith

  -- The entry is there, and the window is still `d`.
  abbrev Holds : ℕ → ℕ → ℕ → ℕ → ReplayProtection → Type 0
  Holds d a n t p = (from_std p.window_duration ≡ answered d) × (has_entry a n t p ≡ true)

  step-Holds :
      (d a n t : ℕ) (p : ReplayProtection) (c : Call)
      → time c < t + d
      → Holds d a n t p
      → Holds d a n t (step p c)
  unfolding step cleanup
  step-Holds d a n t p (checks poisoned b k hash now) h (w, there) =
      elim (check_and_record-cases p poisoned d b k now hash w) [
        | inl (same, _) ↦ subst (Holds d a n t) (sym same) (w, there)
        | inr run ↦
            subst (λ (r : ReplayProtection × Result Bool). Holds d a n t r.0) (sym run)
              (
                ap from_std (record_in-window p d b k now hash) ∙ w,
                record_in-has_entry p a n t d b k now hash h there,
              )
      ]
  step-Holds d a n t p (cleans (some m) now) h (w, there) = (w, there)
  step-Holds d a n t p (cleans none now) h (w, there) = elim (Bool-cases (represents now d)) [
    | inl dated ↦ (ground arith, ground (arith, w, prune-is_entry a n t d now p.entries h there))
    | inr none_left ↦ (ground arith, ground (arith, w))
  ]

  run-Holds :
      (d a n t : ℕ) (p : ReplayProtection) (cs : List Call)
      → All (λ c. time c < t + d) cs
      → Holds d a n t p
      → Holds d a n t (run p cs)
  unfolding run
  run-Holds d a n t p [] h k = k
  run-Holds d a n t p (c ∷ cs) h k =
      run-Holds d a n t (step p c) cs h.1 (step-Holds d a n t p c h.0 k)

  -- A nonce that was accepted at time `t` is refused as a replay by every check of the same user less
  -- than a window later, whatever checks and cleanups run in between. (The window is positive, the
  -- calendar converts it and has a date for the cutoff, and the lock is not poisoned.)
  pub check_and_record-no_replay :
      (p q : ReplayProtection) (d a n t now : ℕ) (hash hash' : Option String) (cs : List Call)
      → from_std p.window_duration ≡ answered d
      → 0 < d
      → check_and_record C p none a n hash t ≡ (q, ok true)
      → All (λ c. time c < t + d) cs
      → now < t + d
      → represents now d ≡ true
      → (check_and_record C (run q cs) none a n hash' now).1
        ≡ err (replay_attack (replay_error n a))
  unfolding check_and_record window
  check_and_record-no_replay p q d a n t now hash hash' cs w h e between recent dated =
      elim (check_and_record-cases p none d a n t hash w) [
        | inl (_, refused_first) ↦
            absurd (refused_first (ap (λ (r : ReplayProtection × Result Bool). r.1) e))
        | inr run_first ↦
            let first : record_in p d a n hash t ≡ (q, ok true) = sym run_first ∙ e in
            let there : Holds d a n t q =
              subst (λ (r : ReplayProtection × Result Bool). Holds d a n t r.0) first
                (
                  ap from_std (record_in-window p d a n t hash) ∙ w,
                  record_in-accepted p d a n t hash h
                      (ap (λ (r : ReplayProtection × Result Bool). r.1) first),
                ) in
            let (w', still) = run-Holds d a n t q cs between there in
            ground (arith, w', dated, record_in-refused (run q cs) d a n t now hash' recent still)
      ]
