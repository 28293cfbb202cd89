-- ===== src/Security/Replay/Tests.antt =====
-- The theorems about replay protection at a concrete user (src/security/replay.rs).
use express402_relayer.Common.{
  ℕ, ◌≡◌, refl, true, false, none, List, [], ◌∷◌, leb, any, retain, lookup, insert, nat_eq, arith,
}
use express402_relayer.Types.Error.{answered, replay_attack, ok, err}
use express402_relayer.Security.Replay.{
  ReplayProtectionEntry, ReplayProtection, Chrono, replay_error, user_entries, check_and_record,
  is_nonce_used, get_next_nonce,
}
use express402_relayer.Security.Replay.Window.{
  Call, checks, cleans, run, check_and_record-no_replay,
}

-- A calendar that begins at 0.
abbrev calendar : Chrono
calendar = record { from_std = λ d. answered d; represents = λ now d. leb d now }

abbrev entry : ℕ → ℕ → ReplayProtectionEntry
entry t n = record { timestamp = t; nonce = n; tx_hash = none }

abbrev protection : List ReplayProtectionEntry → ReplayProtection
protection xs = record { entries = (7, xs) ∷ []; window_duration = 100; cleanup_interval = 10 }

accepted :
    check_and_record calendar (protection (entry 500 4 ∷ [])) none 7 5 none 550
    ≡ (protection (entry 500 4 ∷ entry 550 5 ∷ []), ok true)
unfolding check_and_record user_entries any retain lookup insert
accepted = refl

abbrev between : List Call
between = checks none 7 6 none 560 ∷ cleans none 600 ∷ checks none 8 5 none 610 ∷ []

check_and_record-no_replay_example :
    (check_and_record calendar
      (run calendar (protection (entry 500 4 ∷ entry 550 5 ∷ [])) between)
      none
      7
      5
      none
      640).1
    ≡ err (replay_attack (replay_error 5 7))
check_and_record-no_replay_example =
    check_and_record-no_replay calendar (protection (entry 500 4 ∷ []))
      (protection (entry 500 4 ∷ entry 550 5 ∷ [])) 100 7 5 550 640 none none between refl
      (omega arith) accepted (omega arith, (omega arith, (omega arith, tt))) (omega arith) refl

unused : is_nonce_used calendar (protection (entry 500 4 ∷ [])) none 7 5 550 ≡ ok false
unfolding is_nonce_used user_entries any lookup
unused = refl

next_is_five : get_next_nonce calendar (protection (entry 500 4 ∷ [])) none 7 550 ≡ ok 5
unfolding get_next_nonce user_entries lookup
next_is_five = refl
