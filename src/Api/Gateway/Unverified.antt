-- ===== src/Api/Gateway/Unverified.antt =====
-- What a batch does not check (src/api/gateway.rs, `process_single_transaction`).
use express402_relayer.Common.{
  ℕ, ◌+◌, ◌≤◌, ◌<◌, ◌≡◌, refl, sym, ap, ◌∙◌, inl, inr, Bool, false, none, ◌∷◌, leb, length,
  Option-cases, arith,
}
use express402_relayer.Common.Float.{F64}
use express402_relayer.Types.Error.{text, display, Result, ok, err, panic}
use express402_relayer.Types.Transaction.{TransactionRequest}
use express402_relayer.Utils.Validation.Texts.{Parsers}
use express402_relayer.Queue.Scheduler.{TaskScheduler, is_full, enqueue, schedule_task}
use express402_relayer.Queue.Scheduler.Race.{length-enqueue}
use express402_relayer.Security.Signature.{SignatureVerifier}
use express402_relayer.Security.Replay.{ReplayProtection}
use express402_relayer.Api.Gateway.{SubmitTransactionRequest, ApiState, World, store}
use express402_relayer.Api.Gateway.Batch.{
  Outcome, accepted, rejected, panicked, Fields, request_of, parse_fields, queued, submit_single,
  submit_parsed, process_single_transaction,
}

-- What `schedule_task` answers depends on the queue and on the identifier.
schedule_task-id :
    (q : TaskScheduler) (t t' : TransactionRequest) (created scheduled : ℕ)
    → t.id ≡ t'.id
    → (schedule_task q t created scheduled).1 ≡ (schedule_task q t' created scheduled).1
unfolding schedule_task
schedule_task-id q t t' created scheduled e = ground arith

module _ (F : F64) where
  -- The state with other guards.
  abbrev pub guarded : ApiState F → SignatureVerifier → ReplayProtection → Bool → ApiState F
  guarded s verifier replay on = record s {
    signature_verifier = verifier;
    replay_protection = replay;
    enable_replay_protection = on;
  }

  abbrev pub answer_of : Result ℕ → Outcome ℕ
  answer_of (ok id) = accepted id
  answer_of (err e) = rejected (text "Scheduler error: " ∷ display e)
  answer_of panic = panicked

  queued-answer_of :
      (s : ApiState F) (q : TaskScheduler × Result ℕ) → (queued F s q).1 ≡ answer_of q.1
  queued-answer_of s (q, ok id) = refl
  queued-answer_of s (q, err e) = refl
  queued-answer_of s (q, panic) = refl

  submit_single-guarded :
      (s : ApiState F) (w : World F) (t t' : TransactionRequest) (verifier : SignatureVerifier)
      (replay : ReplayProtection) (on : Bool)
      → t.id ≡ t'.id
      → (submit_single F (guarded s verifier replay on) w t).1 ≡ (submit_single F s w t').1
  unfolding submit_single
  submit_single-guarded s w t t' verifier replay on e = elim (Option-cases w.database_error) [
    | inl stored ↦ rw stored (
        queued-answer_of (store F t (guarded s verifier replay on))
          (schedule_task s.task_scheduler t w.created_at w.scheduled_at)
        ∙ ap answer_of (schedule_task-id s.task_scheduler t t' w.created_at w.scheduled_at e)
        ∙ sym (
            queued-answer_of (store F t' s)
              (schedule_task s.task_scheduler t' w.created_at w.scheduled_at)))
    | inr (error, refused) ↦ rw refused refl
  ]

  submit_parsed-guarded :
      (s : ApiState F) (w : World F) (f : Outcome Fields) (u v : ℕ) (verifier : SignatureVerifier)
      (replay : ReplayProtection) (on : Bool)
      → (submit_parsed F (guarded s verifier replay on) w u f).1 ≡ (submit_parsed F s w v f).1
  unfolding request_of
  submit_parsed-guarded s w (accepted f) u v verifier replay on =
      submit_single-guarded s w (request_of f u w.id w.timestamp) (request_of f v w.id w.timestamp)
        verifier replay on refl
  submit_parsed-guarded s w (rejected m) u v verifier replay on = refl
  submit_parsed-guarded s w panicked u v verifier replay on = refl

  module _ (P : Parsers) where
    -- Neither the signature verifier nor the replay protection, nor the recovery value of the signature, plays
    -- a part in what a transaction of a batch is answered: with any others it is the same.
    pub process_single_transaction-unverified :
        (s : ApiState F) (payload : SubmitTransactionRequest) (w : World F) (v : ℕ)
        (verifier : SignatureVerifier) (replay : ReplayProtection) (on : Bool)
        → (process_single_transaction F P
            (guarded s verifier replay on)
            (record payload { signature_v = v })
            w).1
          ≡ (process_single_transaction F P s payload w).1
    unfolding process_single_transaction parse_fields
    process_single_transaction-unverified s payload w v verifier replay on =
        submit_parsed-guarded s w (parse_fields P payload) v payload.signature_v verifier replay on

    submit_single-room :
        (s : ApiState F) (w : World F) (t : TransactionRequest)
        → w.database_error ≡ none
        → length s.task_scheduler.priority_queue < s.task_scheduler.max_queue_size
        → (submit_single F s w t ≡ (
          record (store F t s) {
            task_scheduler = enqueue s.task_scheduler t w.created_at w.scheduled_at;
          },
          accepted t.id,
        ))
    unfolding submit_single schedule_task is_full
    submit_single-room s w t stored room =
        let open_queue : leb s.task_scheduler.max_queue_size
              (length s.task_scheduler.priority_queue)
            ≡ false =
          ground arith in
        rw (stored, open_queue) refl

    -- A payload that can be parsed is accepted in a batch, whatever its values are, and accepted again right
    -- after, with the same nonce, where the queue has room for both and the database takes them.
    pub process_single_transaction-repeats :
        (s : ApiState F) (payload : SubmitTransactionRequest) (f : Fields) (w w' : World F)
        → parse_fields P payload ≡ accepted f
        → w.database_error ≡ none
        → w'.database_error ≡ none
        → length s.task_scheduler.priority_queue + 2 ≤ s.task_scheduler.max_queue_size
        → ((process_single_transaction F P s payload w).1 ≡ accepted w.id)
          × ((process_single_transaction F P
                (process_single_transaction F P s payload w).0
                payload
                w').1
              ≡ accepted w'.id)
    unfolding process_single_transaction request_of
    process_single_transaction-repeats s payload f w w' parsed stored stored' room =
        let t = request_of f payload.signature_v w.id w.timestamp in
        let t' = request_of f payload.signature_v w'.id w'.timestamp in
        let q = enqueue s.task_scheduler t w.created_at w.scheduled_at in
        let first = submit_single-room s w t stored (omega arith) in
        let (longer, size) = length-enqueue s.task_scheduler t w.created_at w.scheduled_at in
        let s' = record (store F t s) { task_scheduler = q } in
        let second = submit_single-room s' w' t' stored' (omega (arith, longer, size)) in
        rw (parsed, first, second) (refl, refl)
