-- ===== src/Api/Gateway/Accepted.antt =====
-- What an accepted submission shows (src/api/gateway.rs, `submit_transaction`).
use express402_relayer.Common.{ℕ, ◌≡◌, refl, sym, ap, subst, ◌∙◌, true, arith}
use express402_relayer.Common.Float.{F64}
use express402_relayer.Common.Uint.{Uint}
use express402_relayer.Types.Error.{ok}
use express402_relayer.Types.Transaction.{TransactionRequest}
use express402_relayer.Utils.Validation.{validate_transaction_params}
use express402_relayer.Utils.Validation.Texts.{Parsers}
use express402_relayer.Utils.Validation.Valid.{IsValid, validate_transaction_params-IsValid}
use express402_relayer.Security.Replay.{Chrono}
use express402_relayer.Api.Gateway.{
  SubmitTransactionRequest, Reply, success, failure, crash, or_reply, params, read_request,
  validated_request, ApiState, World, admit_reply, submit_transaction,
}
use express402_relayer.Api.Gateway.Placed.{
  >>=-success, success-injective, or_reply-success, IsAdmitted, verification, admit-IsAdmitted,
}

pub validated_request-IsValid :
    (U : Uint) (P : Parsers) (payload : SubmitTransactionRequest) (id now : ℕ)
    (t : TransactionRequest)
    → validated_request U P payload id now ≡ success t
    → IsValid U (params t)
unfolding validated_request
validated_request-IsValid U P payload id now t e =
    let (read, _, checked) = >>=-success (read_request U P payload id now) _ e in
    let (unit, passes, same) =
      >>=-success (or_reply 400 "VALIDATION_FAILED" (validate_transaction_params U (params read))) _
        checked in
    subst (λ x. IsValid U (params x)) (success-injective same)
      ((validate_transaction_params-IsValid U (params read)).0
        (or_reply-success 400 "VALIDATION_FAILED" _ passes))

module _ (F : F64) (C : Chrono) where
  module _ (U : Uint) (P : Parsers) where
    -- What an accepted submission shows.
    pub record IsAccepted (s s' : ApiState F) (payload : SubmitTransactionRequest) (w : World F)
        (id : ℕ) (t : TransactionRequest) : Type 0 where
      pub read : validated_request U P payload w.id w.timestamp ≡ success t
      pub valid : IsValid U (params t)
      pub verified : verification F C s w t t.nonce ≡ ok true
      pub admitted : IsAdmitted F C s s' w t t.nonce id

    admit_reply-success :
        (s : ApiState F) (w : World F) (r : Reply TransactionRequest) (id : ℕ)
        → (admit_reply F C U P s w r).1 ≡ success id
        → (t : TransactionRequest) × (r ≡ success t)
    admit_reply-success s w (success t) id e = (t, refl)
    admit_reply-success s w (failure status m code) id e = cc
    admit_reply-success s w crash id e = cc

    -- An accepted submission has been read as a valid request whose signature passes, and which the replay
    -- protection lets through, where it is on; its row and its task are there at the end, while the verifier
    -- is as before: it does not know the nonce.
    pub submit_transaction-IsAccepted :
        (s : ApiState F) (payload : SubmitTransactionRequest) (w : World F) (id : ℕ)
        → (submit_transaction F C U P s payload w).1 ≡ success id
        → (t : TransactionRequest) × IsAccepted s
            (submit_transaction F C U P s payload w).0
            payload
            w
            id
            t
    unfolding submit_transaction
    submit_transaction-IsAccepted s payload w id e =
        let r = validated_request U P payload w.id w.timestamp in
        let (t, read) = admit_reply-success s w r id e in
        let valid = validated_request-IsValid U P payload w.id w.timestamp t read in
        let path = ap (admit_reply F C U P s w) read in
        let (verified, admitted) =
          admit-IsAdmitted F C s w t t.nonce id (U.to_u64 t.nonce)
            (U.u64_fits t.nonce (omega (arith, valid.small_nonce)))
            (ap (λ r. r.1) (sym path) ∙ e) in
        (
          t,
          record {
            read = read;
            valid = valid;
            verified = verified;
            admitted = subst (λ r. IsAdmitted F C s r.0 w t t.nonce id) (sym path) admitted;
          },
        )
