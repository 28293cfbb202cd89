-- ===== src/Api/Gateway/Once.antt =====
-- No nonce is submitted twice within the window (src/api/gateway.rs, `submit_transaction`).
use express402_relayer.Common.{
  ℕ, ◌+◌, ◌<◌, ◌≡◌, ◌≢◌, refl, sym, ap, subst, ◌∙◌, inl, inr, true, Option, none, List, [], ◌∷◌,
  All, arith,
}
use express402_relayer.Common.Float.{F64}
use express402_relayer.Common.Uint.{Uint}
use express402_relayer.Types.Error.{Message, ok, answered}
use express402_relayer.Types.Transaction.{TransactionRequest}
use express402_relayer.Utils.Validation.Texts.{Parsers}
use express402_relayer.Wallet.Pool.{WalletPool}
use express402_relayer.Queue.Scheduler.{TaskScheduler}
use express402_relayer.Security.Replay.{Chrono, check_and_record, cleanup}
use express402_relayer.Security.Replay.Window.{cleans, step, run, check_and_record-no_replay}
use express402_relayer.Api.Gateway.{
  SubmitTransactionRequest, Reply, success, failure, crash, validated_request, ApiState, World,
  admit_reply, submit_transaction,
}
use express402_relayer.Api.Gateway.Placed.{replay_answer}
use express402_relayer.Api.Gateway.Placed.{success-injective, IsFresh}
use express402_relayer.Api.Gateway.Accepted.{submit_transaction-IsAccepted}
use express402_relayer.Api.Gateway.Calls.{
  check_and_record-ok, run-window, Follows, Follows-refl, Follows-trans, admit-Follows,
}

module _ (F : F64) (C : Chrono) (U : Uint) (P : Parsers) where
  admit_reply-Follows :
      (limit : ℕ) (s : ApiState F) (w : World F) (r : Reply TransactionRequest)
      → w.checked_at < limit
      → Follows C F limit s (admit_reply F C U P s w r).0
  admit_reply-Follows limit s w (success t) h = admit-Follows C F limit s w t (U.to_u64 t.nonce) h
  admit_reply-Follows limit s w (failure status m code) h = Follows-refl C F limit s
  admit_reply-Follows limit s w crash h = Follows-refl C F limit s

  submit_transaction-Follows :
      (limit : ℕ) (s : ApiState F) (payload : SubmitTransactionRequest) (w : World F)
      → w.checked_at < limit
      → Follows C F limit s (submit_transaction F C U P s payload w).0
  unfolding submit_transaction
  submit_transaction-Follows limit s payload w h =
      admit_reply-Follows limit s w (validated_request U P payload w.id w.timestamp) h

  -- What happens to the gateway: a submission, a tick of the cleanup task, or whatever the workers do to the
  -- wallets and to the queue.
  pub data Action : Type 0 where
    submits : SubmitTransactionRequest → World F → Action
    ticks : Option Message → ℕ → Action
    works : WalletPool F → TaskScheduler → Action

  unfoldable pub act : ApiState F → Action → ApiState F
  act s (submits payload w) = (submit_transaction F C U P s payload w).0
  act s (ticks poisoned now) = record s {
    replay_protection = cleanup C s.replay_protection poisoned now;
  }
  act s (works pool scheduler) = record s { wallet_pool = pool; task_scheduler = scheduler }

  unfoldable pub act_all : ApiState F → List Action → ApiState F
  act_all s [] = s
  act_all s (a ∷ rest) = act_all (act s a) rest

  -- The action reads the clock before a time.
  abbrev pub Early : ℕ → Action → Type 0
  Early limit (submits payload w) = w.checked_at < limit
  Early limit (ticks poisoned now) = now < limit
  Early limit (works pool scheduler) = Unit {0}

  act-Follows :
      (limit : ℕ) (s : ApiState F) (a : Action) → Early limit a → Follows C F limit s (act s a)
  unfolding act run step
  act-Follows limit s (submits payload w) h = submit_transaction-Follows limit s payload w h
  act-Follows limit s (ticks poisoned now) h = record {
    calls = cleans poisoned now ∷ [];
    early = (h, tt);
    reached = refl;
    enabled = refl;
  }
  act-Follows limit s (works pool scheduler) h = record {
    calls = [];
    early = tt;
    reached = refl;
    enabled = refl;
  }

  act_all-Follows :
      (limit : ℕ) (s : ApiState F) (actions : List Action)
      → All (Early limit) actions
      → Follows C F limit s (act_all s actions)
  unfolding act_all
  act_all-Follows limit s [] h = Follows-refl C F limit s
  act_all-Follows limit s (a ∷ rest) h =
      Follows-trans C F limit (act-Follows limit s a h.0) (act_all-Follows limit (act s a) rest h.1)

  abbrev reads : SubmitTransactionRequest → World F → Reply TransactionRequest
  reads payload w = validated_request U P payload w.id w.timestamp

  -- The nonce of an accepted submission has been recorded, by a check with these arguments.
  accepted-recorded :
      (s : ApiState F) (payload : SubmitTransactionRequest) (w : World F) (t : TransactionRequest)
      (d i : ℕ)
      → C.from_std s.replay_protection.window_duration ≡ answered d
      → s.enable_replay_protection ≡ true
      → (submit_transaction F C U P s payload w).1 ≡ success i
      → reads payload w ≡ success t
      → (check_and_record C s.replay_protection none t.user_address t.nonce none w.checked_at
          ≡ ((submit_transaction F C U P s payload w).0.replay_protection, ok true))
        × (C.represents w.checked_at d ≡ true)
  accepted-recorded s payload w t d i converts on first read =
      let s' = (submit_transaction F C U P s payload w).0 in
      let (t₁, accepted) = submit_transaction-IsAccepted F C U P s payload w i first in
      let same = success-injective (sym accepted.read ∙ read) in
      let fresh = subst (λ x. IsFresh F C s s' w x x.nonce) same accepted.admitted.fresh in
      elim fresh [
        | inl off ↦ absurd (ground (arith, on, off))
        | inr (b, answer, stored) ↦
            let (unlocked, granted, dated) =
              check_and_record-ok C s.replay_protection w.poisoned d t.user_address t.nonce
                w.checked_at none b converts answer in
            (
              ap
                    (λ m.
                      check_and_record C s.replay_protection m t.user_address t.nonce none
                        w.checked_at)
                    (sym unlocked)
                  ∙ ap (λ p. (p, (replay_answer F C s w t t.nonce).1)) (sym stored)
                  ∙ ap (λ r. (s'.replay_protection, r)) (answer ∙ ap ok granted),
              dated,
            )
      ]

  -- Where the replay protection is on, the nonce of a submission that was accepted is not accepted from the
  -- same user again less than a window later, whatever submissions, cleanups and work come in between before
  -- that time. (The window is positive and the calendar converts it.)
  pub submit_transaction-once :
      (s : ApiState F) (payload payload' : SubmitTransactionRequest) (w w' : World F)
      (t t' : TransactionRequest) (actions : List Action) (d i j : ℕ)
      → C.from_std s.replay_protection.window_duration ≡ answered d
      → 0 < d
      → s.enable_replay_protection ≡ true
      → (submit_transaction F C U P s payload w).1 ≡ success i
      → reads payload w ≡ success t
      → All (Early (w.checked_at + d)) actions
      → reads payload' w' ≡ success t'
      → t'.user_address ≡ t.user_address
      → t'.nonce ≡ t.nonce
      → w'.checked_at < w.checked_at + d
      → (submit_transaction F C U P
          (act_all (submit_transaction F C U P s payload w).0 actions)
          payload'
          w').1
        ≢ success j
  submit_transaction-once s payload payload' w w' t t' actions d i j converts positive on first read
        early read' user nonce recent second =
      let limit = w.checked_at + d in
      let s₁ = (submit_transaction F C U P s payload w).0 in
      let s₂ = act_all s₁ actions in
      let before = submit_transaction-Follows limit s payload w (omega arith) in
      let between = act_all-Follows limit s₁ actions early in
      let all = Follows-trans C F limit before between in
      let kept = all.reached in
      let converts' =
        ap (λ p. C.from_std p.window_duration) kept
        ∙ ap C.from_std (run-window C s.replay_protection all.calls)
        ∙ converts in
      let (ran, _) = accepted-recorded s payload w t d i converts on first read in
      let (ran', dated) =
        accepted-recorded s₂ payload' w' t' d j converts' (all.enabled ∙ on) second read' in
      let refused =
        check_and_record-no_replay C s.replay_protection s₁.replay_protection d t.user_address
          t.nonce w.checked_at w'.checked_at none none between.calls converts positive ran
          between.early recent dated in
      let same =
        ap (λ p. check_and_record C p none t'.user_address t'.nonce none w'.checked_at)
          between.reached
        ∙ ap
            (λ a.
              check_and_record C (run C s₁.replay_protection between.calls) none a t'.nonce none
                w'.checked_at)
            user
        ∙ ap
            (λ n.
              check_and_record C (run C s₁.replay_protection between.calls) none t.user_address n
                none w'.checked_at)
            nonce in
      let impossible = sym refused ∙ ap (λ r. r.1) (sym same ∙ ran') in cc
