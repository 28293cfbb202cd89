-- ===== src/Api/Gateway/Calls.antt =====
-- What a submission does to the replay protection (src/api/gateway.rs, `submit_transaction`).
use express402_relayer.Common.{
  ℕ, ◌<◌, ◌≡◌, refl, sym, ap, subst, ◌∙◌, inl, inr, Bool, true, false, Option, none, some, String,
  List, [], ◌∷◌, ◌++◌, All, All-append, if◌then◌else◌, Bool-cases, arith,
}
use express402_relayer.Common.Float.{F64}
use express402_relayer.Types.Error.{Message, Result, ok, err, panic, answered}
use express402_relayer.Types.Transaction.{TransactionRequest}
use express402_relayer.Security.Signature.{verify_transaction_signature}
use express402_relayer.Security.Replay.{
  ReplayProtection, Chrono, check_and_record, cleanup, record_in, window,
}
use express402_relayer.Security.Replay.Window.{Call, checks, cleans, time, step, run}
use express402_relayer.Api.Gateway.{
  Reply, ApiState, World, place, after_replay, check_replay, after_verification, admit,
}
use express402_relayer.Api.Gateway.Placed.{replay_answer, place-replay}

module _ (C : Chrono) where
  run-append :
      (p : ReplayProtection) (cs ds : List Call) → run C p (cs ++ ds) ≡ run C (run C p cs) ds
  unfolding run
  run-append p [] ds = refl
  run-append p (c ∷ cs) ds = run-append (step C p c) cs ds

  -- A check that succeeds found the lock in order and a date for the cutoff, and its answer is true.
  pub check_and_record-ok :
      (p : ReplayProtection) (poisoned : Option Message) (d a n now : ℕ) (hash : Option String)
      (b : Bool)
      → C.from_std p.window_duration ≡ answered d
      → (check_and_record C p poisoned a n hash now).1 ≡ ok b
      → (poisoned ≡ none) × (b ≡ true) × (C.represents now d ≡ true)
  unfolding check_and_record window record_in
  check_and_record-ok p none d a n now hash b e h = ground arith
  check_and_record-ok p (some m) d a n now hash b e h = absurd (ground arith)

  step-window : (p : ReplayProtection) (c : Call) → (step C p c).window_duration ≡ p.window_duration
  unfolding step check_and_record record_in window cleanup
  step-window p (checks poisoned a n hash now) = ground arith
  step-window p (cleans (some m) now) = refl
  step-window p (cleans none now) = ground arith

  pub run-window :
      (p : ReplayProtection) (cs : List Call) → (run C p cs).window_duration ≡ p.window_duration
  unfolding run
  run-window p [] = refl
  run-window p (c ∷ cs) = run-window (step C p c) cs ∙ step-window p c

  module _ (F : F64) where
    place-enabled :
        (s : ApiState F) (w : World F) (t : TransactionRequest)
        → (place F s w t).0.enable_replay_protection ≡ s.enable_replay_protection
    unfolding place
    place-enabled s w t = ground arith

    -- The replay protection has gone through calls before a time, and is as enabled as it was.
    pub record Follows (limit : ℕ) (s s' : ApiState F) : Type 0 where
      pub calls : List Call
      pub early : All (λ c. time c < limit) calls
      pub reached : s'.replay_protection ≡ run C s.replay_protection calls
      pub enabled : s'.enable_replay_protection ≡ s.enable_replay_protection

    pub Follows-refl : (limit : ℕ) (s : ApiState F) → Follows limit s s
    unfolding run
    Follows-refl limit s = record { calls = []; early = tt; reached = refl; enabled = refl }

    pub Follows-trans :
        (limit : ℕ) {s t u : ApiState F} → Follows limit s t → Follows limit t u → Follows limit s u
    Follows-trans limit {s = s} f g = record {
      calls = f.calls ++ g.calls;
      early = All-append (λ c. time c < limit) f.calls g.calls f.early g.early;
      reached =
          g.reached
          ∙ ap (λ p. run C p g.calls) f.reached
          ∙ sym (run-append s.replay_protection f.calls g.calls);
      enabled = g.enabled ∙ f.enabled;
    }

    place-Follows :
        (limit : ℕ) (s : ApiState F) (w : World F) (t : TransactionRequest)
        → Follows limit s (place F s w t).0
    unfolding run
    place-Follows limit s w t = record {
      calls = [];
      early = tt;
      reached = place-replay F s w t;
      enabled = place-enabled s w t;
    }

    after_replay-same :
        (s : ApiState F) (w : World F) (t : TransactionRequest)
        (answer : ReplayProtection × Result Bool)
        → ((after_replay F s w t answer).0.replay_protection ≡ answer.0)
          × ((after_replay F s w t answer).0.enable_replay_protection ≡ s.enable_replay_protection)
    unfolding after_replay
    after_replay-same s w t (p, ok b) =
        let s' = record s { replay_protection = p } in (place-replay F s' w t, place-enabled s' w t)
    after_replay-same s w t (p, err e) = (refl, refl)
    after_replay-same s w t (p, panic) = (refl, refl)

    check_replay-Follows :
        (limit : ℕ) (s : ApiState F) (w : World F) (t : TransactionRequest) (nonce : ℕ)
        → w.checked_at < limit
        → Follows limit s (check_replay F C s w t nonce).0
    unfolding check_replay run step
    check_replay-Follows limit s w t nonce h =
        let checked = after_replay F s w t (replay_answer F C s w t nonce) in
        let choice : Bool → ApiState F × Reply ℕ = λ b. if b then checked else place F s w t in
        let same = after_replay-same s w t (replay_answer F C s w t nonce) in
        elim (Bool-cases s.enable_replay_protection) [
          | inl on ↦
              subst (λ r. Follows limit s r.0) (sym (ap choice on))
                (record {
                  calls = checks w.poisoned t.user_address nonce none w.checked_at ∷ [];
                  early = (h, tt);
                  reached = same.0;
                  enabled = same.1;
                })
          | inr off ↦
              subst (λ r. Follows limit s r.0) (sym (ap choice off)) (place-Follows limit s w t)
        ]

    after_verification-Follows :
        (limit : ℕ) (s : ApiState F) (w : World F) (t : TransactionRequest) (nonce : ℕ)
        (answer : Result Bool)
        → w.checked_at < limit
        → Follows limit s (after_verification F C s w t nonce answer).0
    unfolding after_verification
    after_verification-Follows limit s w t nonce (ok true) h =
        check_replay-Follows limit s w t nonce h
    after_verification-Follows limit s w t nonce (ok false) h = Follows-refl limit s
    after_verification-Follows limit s w t nonce (err e) h = Follows-refl limit s
    after_verification-Follows limit s w t nonce panic h = Follows-refl limit s

    pub admit-Follows :
        (limit : ℕ) (s : ApiState F) (w : World F) (t : TransactionRequest) (o : Option ℕ)
        → w.checked_at < limit
        → Follows limit s (admit F C s w t o).0
    unfolding admit
    admit-Follows limit s w t none h = Follows-refl limit s
    admit-Follows limit s w t (some nonce) h =
        after_verification-Follows limit s w t nonce
          (verify_transaction_signature s.signature_verifier t nonce w.verified_at).1 h
