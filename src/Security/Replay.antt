-- ===== src/Security/Replay.antt =====
-- src/security/replay.rs: `ReplayProtection`, the nonces that each user has sent lately. Each
-- `Utc::now()` is an argument, in nanoseconds, and a test `t > now - d` is written `now < t + d`.
-- `poisoned` is the error of a lock whose holder has panicked.
pub mod Window
mod Queries
mod Tests
use express402_relayer.Common.{
  ℕ, suc, ◌+◌, ◌%◌, ◌^◌, ◌*◌, ◌/◌, Bool, true, false, not, ◌&&◌, Option, none, some, List, [], ◌∷◌,
  ◌++◌, String, ltb, ◌==◌, if◌then◌else◌, length, retain, any, Map, lookup, insert, nat_eq,
}
use express402_relayer.Types.Error.{
  Message, text, num, debug, internal, replay_attack, Answer, answered, refused, Result, ok, err,
  panic, ◌>>=◌,
}
use express402_relayer.Types.Wallet.{u64}

pub record ReplayProtectionEntry : Type 0 where
  pub timestamp : ℕ
  pub nonce : ℕ
  pub tx_hash : Option String

pub record ReplayProtection : Type 0 where
  pub entries : Map ℕ (List ReplayProtectionEntry)
  pub window_duration : ℕ
  pub cleanup_interval : ℕ

-- The calendar library: `from_std` converts a duration, and `represents now d` says whether the time
-- `now - d` has a date; the subtraction panics where it has none.
pub record Chrono : Type 0 where
  pub from_std : ℕ → Answer ℕ
  pub represents : ℕ → ℕ → Bool

unfoldable pub new : ℕ → ℕ → ReplayProtection
new window_duration cleanup_interval = record {
  entries = [];
  window_duration = window_duration;
  cleanup_interval = cleanup_interval;
}

-- `map_err` into an `Internal` error.
abbrev pub or_internal {ℓ} : {A : Type ℓ} → Option Message → A → Result A
or_internal none a = ok a
or_internal (some m) a = err (internal m)

-- `entry.timestamp > cutoff_time`.
abbrev pub is_recent : ℕ → ℕ → ReplayProtectionEntry → Bool
is_recent d now entry = ltb now (entry.timestamp + d)

-- The test of the loops of `check_and_record` and `is_nonce_used`.
abbrev pub is_replay : ℕ → ℕ → ℕ → ReplayProtectionEntry → Bool
is_replay nonce d now entry = (entry.nonce == nonce) && is_recent d now entry

-- The entries of a user, none for an unknown one.
unfoldable pub user_entries : ℕ → Map ℕ (List ReplayProtectionEntry) → List ReplayProtectionEntry
user_entries address m = elim (lookup address m) [ none ↦ [] | some xs ↦ xs ]

abbrev pub replay_error : ℕ → ℕ → Message
replay_error nonce address =
    text "Nonce " ∷ num nonce ∷ text " already used recently for address " ∷ debug address ∷ []

-- `check_and_record` under the lock, with the window `d`. The user's entry is created first.
unfoldable pub record_in :
    ReplayProtection → ℕ → ℕ → ℕ → Option String → ℕ → ReplayProtection × Result Bool
unfolding user_entries
record_in p d address nonce tx_hash now =
    if any (is_replay nonce d now) mine
    then (
      record p { entries = insert address mine p.entries },
      err (replay_attack (replay_error nonce address)),
    )
    else (
      record p {
        entries =
            insert address
              (retain (is_recent d now)
                (mine ++ (record { timestamp = now; nonce = nonce; tx_hash = tx_hash }) ∷ []))
              p.entries;
      },
      ok true,
    )
  where
    mine : List ReplayProtectionEntry
    mine = user_entries address p.entries

-- The loop of `get_next_nonce`.
unfoldable pub max_nonce : ℕ → ℕ → ℕ → List ReplayProtectionEntry → ℕ
max_nonce d now m [] = m
max_nonce d now m (entry ∷ rest) =
    max_nonce d now (if is_recent d now entry && ltb m entry.nonce then entry.nonce else m) rest

-- The `retain` of the cleanup task over the users.
unfoldable pub prune :
    (ReplayProtectionEntry → Bool)
    → Map ℕ (List ReplayProtectionEntry)
    → Map ℕ (List ReplayProtectionEntry)
prune keep [] = []
prune keep ((address, xs) ∷ m) =
    let rest = prune keep m in
    elim (retain keep xs) [ [] ↦ rest | x ∷ more ↦ (address, x ∷ more) ∷ rest ]

module _ (C : Chrono) where
  open C use {from_std, represents}

  -- The window, once `cutoff_time` has been computed.
  unfoldable pub window : ReplayProtection → ℕ → Result ℕ
  window p now = elim (from_std p.window_duration) [
    | refused m ↦ err (internal m)
    | answered d ↦ if represents now d then ok d else panic
  ]

  unfoldable pub check_and_record :
      ReplayProtection → Option Message → ℕ → ℕ → Option String → ℕ → ReplayProtection × Result Bool
  unfolding window record_in
  check_and_record p poisoned address nonce tx_hash now =
      elim (window p now >>= or_internal poisoned) [
        | ok d ↦ record_in p d address nonce tx_hash now
        | err e ↦ (p, err e)
        | panic ↦ (p, panic)
      ]

  unfoldable pub is_nonce_used : ReplayProtection → Option Message → ℕ → ℕ → ℕ → Result Bool
  unfolding window user_entries
  is_nonce_used p poisoned address nonce now = do
    d ← window p now >>= or_internal poisoned
    ok (any (is_replay nonce d now) (user_entries address p.entries))

  unfoldable pub get_next_nonce : ReplayProtection → Option Message → ℕ → ℕ → Result ℕ
  unfolding window user_entries max_nonce
  get_next_nonce p poisoned address now = do
    d ← window p now >>= or_internal poisoned
    ok (u64 (max_nonce d now 0 (user_entries address p.entries) + 1))

  -- `from_std(..).unwrap_or_default()`.
  abbrev pub window_or_zero : Answer ℕ → ℕ
  window_or_zero (answered d) = d
  window_or_zero (refused m) = 0

  -- One tick of the cleanup task. It does nothing where the cutoff has no date or the lock fails.
  unfoldable pub cleanup : ReplayProtection → Option Message → ℕ → ReplayProtection
  unfolding prune
  cleanup p (some m) now = p
  cleanup p none now =
      let d = window_or_zero (from_std p.window_duration) in
      if represents now d then record p { entries = prune (is_recent d now) p.entries } else p
