-- ===== src/Api/Gateway/Placed.antt =====
-- A request that is let through (src/api/gateway.rs, the end of `submit_transaction`).
use express402_relayer.Common.{
  ℕ, ◌≡◌, refl, sym, ap, subst, ◌∙◌, ◌⊎◌, inl, inr, Bool, true, false, Option, none, some, String,
  [], ◌∷◌, ◌++◌, ◌==◌, if◌then◌else◌, Bool-cases, Option-cases, arith,
}
use express402_relayer.Common.Float.{F64}
use express402_relayer.Types.Error.{Result, ok, err, panic}
use express402_relayer.Types.Transaction.{TransactionRequest}
use express402_relayer.Wallet.Pool.{get_pool_stats}
use express402_relayer.Queue.Scheduler.{schedule_task, get_queue_stats}
use express402_relayer.Security.Signature.{verify_transaction_signature}
use express402_relayer.Security.Replay.{ReplayProtection, Chrono, check_and_record}
use express402_relayer.Api.Gateway.{
  Reply, success, failure, crash, or_reply, ◌>>=◌, ApiState, World, store, scheduled, place,
  after_replay, check_replay, after_verification, admit,
}

-- A chain that succeeds has a first part that does.
pub >>=-success :
    {A B : Type 0} (m : Reply A) (f : A → Reply B) {b : B}
    → (m >>= f) ≡ success b
    → (a : A) × (m ≡ success a) × (f a ≡ success b)
>>=-success (success a) f e = (a, refl, e)
>>=-success (failure status m code) f e = cc
>>=-success crash f e = cc

pub success-injective : {A : Type 0} {a b : A} → success a ≡ success b → a ≡ b
success-injective {a = a} e = ap (λ r. elim r [ success x ↦ x | _ ↦ a ]) e

pub or_reply-success :
    (status : ℕ) (code : String) {A : Type 0} (r : Result A) {a : A}
    → or_reply status code r ≡ success a
    → r ≡ ok a
or_reply-success status code (ok b) e = ground arith
or_reply-success status code (err x) e = cc
or_reply-success status code panic e = cc

module _ (F : F64) where
  -- The row and the task of an accepted request.
  pub record IsPlaced (s s' : ApiState F) (w : World F) (t : TransactionRequest) (id : ℕ)
      : Type 0 where
    pub stored : s'.transactions ≡ s.transactions ++ t ∷ []
    pub queued :
        schedule_task s.task_scheduler t w.created_at w.scheduled_at ≡ (s'.task_scheduler, ok id)

  -- A request that is placed passes the three tests before the queue.
  place-success :
      (s : ApiState F) (w : World F) (t : TransactionRequest) (id : ℕ)
      → (place F s w t).1 ≡ success id
      → place F s w t
        ≡ scheduled F (store F t s) (schedule_task s.task_scheduler t w.created_at w.scheduled_at)
  unfolding place
  place-success s w t id e =
      elim (Bool-cases ((get_pool_stats F s.wallet_pool).healthy_wallets == 0)) [
        | inl unhealthy ↦ absurd (ground arith)
        | inr healthy ↦
            elim (Bool-cases ((get_queue_stats s.task_scheduler).available_permits == 0)) [
              | inl full ↦ absurd (ground arith)
              | inr free ↦ elim (Option-cases w.database_error) [
                | inl stored ↦ rw (healthy, free, stored) refl
                | inr (error, refused) ↦ absurd (ground arith)
              ]
            ]
      ]

  pub place-IsPlaced :
      (s : ApiState F) (w : World F) (t : TransactionRequest) (id : ℕ)
      → (place F s w t).1 ≡ success id
      → IsPlaced s (place F s w t).0 w t id
  place-IsPlaced s w t id e =
      let path = place-success s w t id e in
      let q = schedule_task s.task_scheduler t w.created_at w.scheduled_at in
      let answered : q.1 ≡ ok id =
        or_reply-success 503 "SCHEDULER_ERROR" q.1 (ap (λ r. r.1) (sym path) ∙ e) in
      subst (λ r. IsPlaced s r.0 w t id) (sym path)
        (record { stored = refl; queued = ap (λ r. (q.0, r)) answered })

  pub place-replay :
      (s : ApiState F) (w : World F) (t : TransactionRequest)
      → (place F s w t).0.replay_protection ≡ s.replay_protection
  unfolding place
  place-replay s w t = ground arith

  module _ (C : Chrono) where
    abbrev pub replay_answer :
        ApiState F → World F → TransactionRequest → ℕ → ReplayProtection × Result Bool
    replay_answer s w t nonce =
        check_and_record C s.replay_protection w.poisoned t.user_address nonce none w.checked_at

    -- The replay protection of a request that is let through: it is off, or it has recorded the nonce.
    abbrev pub IsFresh : ApiState F → ApiState F → World F → TransactionRequest → ℕ → Type 0
    IsFresh s s' w t nonce =
        (s.enable_replay_protection ≡ false)
        ⊎ ((b : Bool) × ((replay_answer s w t nonce).1 ≡ ok b)
            × (s'.replay_protection ≡ (replay_answer s w t nonce).0))

    pub record IsAdmitted (s s' : ApiState F) (w : World F) (t : TransactionRequest) (nonce id : ℕ)
        : Type 0 where
      pub placed : IsPlaced s s' w t id
      pub fresh : IsFresh s s' w t nonce
      pub forgotten : s'.signature_verifier ≡ s.signature_verifier

    pub place-verifier :
        (s : ApiState F) (w : World F) (t : TransactionRequest)
        → (place F s w t).0.signature_verifier ≡ s.signature_verifier
    unfolding place
    place-verifier s w t = ground arith

    after_replay-IsPlaced :
        (s : ApiState F) (w : World F) (t : TransactionRequest) (id : ℕ)
        (answer : ReplayProtection × Result Bool)
        → (after_replay F s w t answer).1 ≡ success id
        → IsPlaced s (after_replay F s w t answer).0 w t id
          × ((b : Bool) × (answer.1 ≡ ok b)
              × ((after_replay F s w t answer).0.replay_protection ≡ answer.0))
          × ((after_replay F s w t answer).0.signature_verifier ≡ s.signature_verifier)
    unfolding after_replay
    after_replay-IsPlaced s w t id (p, ok b) e =
        let s' = record s { replay_protection = p } in
        let placed = place-IsPlaced s' w t id e in
        (
          record { stored = placed.stored; queued = placed.queued },
          (b, refl, place-replay s' w t),
          place-verifier s' w t,
        )
    after_replay-IsPlaced s w t id (p, err x) e = cc
    after_replay-IsPlaced s w t id (p, panic) e = cc

    check_replay-IsAdmitted :
        (s : ApiState F) (w : World F) (t : TransactionRequest) (nonce id : ℕ)
        → (check_replay F C s w t nonce).1 ≡ success id
        → IsAdmitted s (check_replay F C s w t nonce).0 w t nonce id
    unfolding check_replay
    check_replay-IsAdmitted s w t nonce id e =
        let checked = after_replay F s w t (replay_answer s w t nonce) in
        let choice : Bool → ApiState F × Reply ℕ = λ b. if b then checked else place F s w t in
        elim (Bool-cases s.enable_replay_protection) [
          | inl on ↦
              let path : check_replay F C s w t nonce ≡ checked = ap choice on in
              let (placed, fresh, same) =
                after_replay-IsPlaced s w t id (replay_answer s w t nonce)
                  (ap (λ r. r.1) (sym path) ∙ e) in
              subst (λ r. IsAdmitted s r.0 w t nonce id) (sym path)
                (record { placed = placed; fresh = inr fresh; forgotten = same })
          | inr off ↦
              let path : check_replay F C s w t nonce ≡ place F s w t = ap choice off in
              subst (λ r. IsAdmitted s r.0 w t nonce id) (sym path)
                (record {
                  placed = place-IsPlaced s w t id (ap (λ r. r.1) (sym path) ∙ e);
                  fresh = inl off;
                  forgotten = place-verifier s w t;
                })
        ]

    after_verification-IsAdmitted :
        (s : ApiState F) (w : World F) (t : TransactionRequest) (nonce id : ℕ)
        (answer : Result Bool)
        → (after_verification F C s w t nonce answer).1 ≡ success id
        → (answer ≡ ok true)
          × IsAdmitted s (after_verification F C s w t nonce answer).0 w t nonce id
    unfolding after_verification
    after_verification-IsAdmitted s w t nonce id (ok true) e =
        (refl, check_replay-IsAdmitted s w t nonce id e)
    after_verification-IsAdmitted s w t nonce id (ok false) e = cc
    after_verification-IsAdmitted s w t nonce id (err x) e = cc
    after_verification-IsAdmitted s w t nonce id panic e = cc

    abbrev pub verification : ApiState F → World F → TransactionRequest → ℕ → Result Bool
    verification s w t nonce =
        (verify_transaction_signature s.signature_verifier t nonce w.verified_at).1

    pub admit-IsAdmitted :
        (s : ApiState F) (w : World F) (t : TransactionRequest) (nonce id : ℕ) (o : Option ℕ)
        → o ≡ some nonce
        → (admit F C s w t o).1 ≡ success id
        → (verification s w t nonce ≡ ok true) × IsAdmitted s (admit F C s w t o).0 w t nonce id
    unfolding admit
    admit-IsAdmitted s w t nonce id none n e = cc
    admit-IsAdmitted s w t nonce id (some k) n e =
        let same : nonce ≡ k = ground arith in
        subst
          (λ m.
            (verification s w t m ≡ ok true) × IsAdmitted s (admit F C s w t (some k)).0 w t m id)
          (sym same) (after_verification-IsAdmitted s w t k id (verification s w t k) e)
