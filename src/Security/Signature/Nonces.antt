-- ===== src/Security/Signature/Nonces.antt =====
-- How nonces grow, and what a verification reads (src/security/signature.rs).
use express402_relayer.Common.{
  ℕ, ◌≤◌, ◌≡◌, ◌≢◌, refl, ◌⊎◌, ◌∙◌, ap, inl, inr, Bool, true, false, List, [], ◌∷◌, ltb, ◌==◌,
  ==_iff, if◌then◌else◌, insert, lookup-insert, nat_eq, Bool-cases, arith,
}
use express402_relayer.Types.Error.{text, signature_verification, Result, ok, err}
use express402_relayer.Types.Transaction.{TransactionRequest}
use express402_relayer.Types.Wallet.{sub_u64}
use express402_relayer.Security.Signature.{
  SignatureVerifier, current_nonce, verify_nonce, verify_eip712_signature, seconds, after_nonce,
  verify_transaction_signature,
}

-- A verification: the request, the nonce and the time.
abbrev pub Call : Type 0
Call = TransactionRequest × ℕ × ℕ

unfoldable pub run : SignatureVerifier → List Call → SignatureVerifier
run v [] = v
run v ((request, nonce, now) ∷ calls) =
    run (verify_transaction_signature v request nonce now).0 calls

current_nonce-insert :
    (v : SignatureVerifier) (a b n : ℕ)
    → current_nonce (record v { nonce_cache = insert a n v.nonce_cache }) b
      ≡ (if a == b then n else current_nonce v b)
unfolding current_nonce
current_nonce-insert v a b n = ground (arith, lookup-insert a b n v.nonce_cache)

verify_nonce-grows :
    (v : SignatureVerifier) (a b n : ℕ) → current_nonce v b ≤ current_nonce (verify_nonce v a n).0 b
unfolding verify_nonce
verify_nonce-grows v a b n = ground (arith, current_nonce-insert v a b n, ==_iff a b)

after_nonce-state :
    (x : SignatureVerifier × Bool) (request : TransactionRequest) → (after_nonce x request).0 ≡ x.0
after_nonce-state (v, true) request = refl
after_nonce-state (v, false) request = refl

-- A verification leaves the nonces, or does what `verify_nonce` does.
verification-cases :
    (v : SignatureVerifier) (request : TransactionRequest) (nonce now : ℕ)
    → ((verify_transaction_signature v request nonce now).0 ≡ v)
      ⊎ ((verify_transaction_signature v request nonce now).0
          ≡ (verify_nonce v request.user_address nonce).0)
unfolding verify_transaction_signature
verification-cases v request nonce now =
    elim (Bool-cases (ltb 300 (sub_u64 (seconds now) (seconds request.timestamp)))) [
      | inl old ↦ inl (rw old refl)
      | inr young ↦ inr (rw young (after_nonce-state _ request))
    ]

verification-grows :
    (v : SignatureVerifier) (request : TransactionRequest) (nonce now b : ℕ)
    → current_nonce v b ≤ current_nonce (verify_transaction_signature v request nonce now).0 b
verification-grows v request nonce now b = elim (verification-cases v request nonce now) [
  | inl same ↦ rw same (omega arith)
  | inr counted ↦ rw counted (verify_nonce-grows v request.user_address b nonce)
]

run-grows :
    (v : SignatureVerifier) (calls : List Call) (b : ℕ)
    → current_nonce v b ≤ current_nonce (run v calls) b
unfolding run
run-grows v [] b = omega arith
run-grows v ((request, nonce, now) ∷ calls) b = omega (
  arith,
  verification-grows v request nonce now b,
  run-grows (verify_transaction_signature v request nonce now).0 calls b,
)

-- What an accepted verification leaves.
accepted-counted :
    (v w : SignatureVerifier) (request : TransactionRequest) (nonce now : ℕ)
    → verify_transaction_signature v request nonce now ≡ (w, ok true)
    → nonce ≤ current_nonce w request.user_address
unfolding verify_transaction_signature verify_nonce
accepted-counted v w request nonce now e =
    let counted : current_nonce
          (record v { nonce_cache = insert request.user_address nonce v.nonce_cache })
          request.user_address
        ≡ nonce =
      current_nonce-insert v request.user_address request.user_address nonce
      ∙ ground (arith, (==_iff request.user_address request.user_address).1 refl) in
    ground (arith, e, counted)

-- Once a nonce of a user has been accepted, no verification of that user with the same or a smaller
-- nonce is, whatever verifications run in between.
pub verify_transaction_signature-grows :
    (v w : SignatureVerifier) (request later : TransactionRequest) (nonce n now at : ℕ)
    (calls : List Call)
    → verify_transaction_signature v request nonce now ≡ (w, ok true)
    → later.user_address ≡ request.user_address
    → n ≤ nonce
    → (verify_transaction_signature (run w calls) later n at).1 ≢ ok true
unfolding verify_transaction_signature verify_nonce
verify_transaction_signature-grows v w request later nonce n now at calls e same small accepted =
    let counted : nonce ≤ current_nonce w request.user_address =
      accepted-counted v w request nonce now e in
    let still = run-grows w calls request.user_address in
    let above : n ≤ current_nonce (run w calls) later.user_address = rw same (omega arith) in
    ground (arith, above, accepted)

after_nonce-same :
    (x : SignatureVerifier × Bool) (r s : TransactionRequest)
    → r.signature.v ≡ s.signature.v
    → after_nonce x r ≡ after_nonce x s
unfolding verify_eip712_signature
after_nonce-same (v, true) r s e = rw e refl
after_nonce-same (v, false) r s e = refl

-- Two requests that agree on the user, the time and the recovery value of the signature get the same
-- answer and leave the same verifier, whatever the rest of their content, so of the message that is
-- built for the check of the signature, and whatever the rest of their signatures.
pub verify_transaction_signature-ignores :
    (v : SignatureVerifier) (request other : TransactionRequest) (nonce now : ℕ)
    → other.user_address ≡ request.user_address
    → other.timestamp ≡ request.timestamp
    → other.signature.v ≡ request.signature.v
    → verify_transaction_signature v other nonce now
      ≡ verify_transaction_signature v request nonce now
unfolding verify_transaction_signature
verify_transaction_signature-ignores v request other nonce now user time value =
    ap (λ (u : ℕ). guarded other.timestamp (after_nonce (verify_nonce v u nonce) other)) user
    ∙ ap (λ (s : ℕ). guarded s (after_nonce (verify_nonce v request.user_address nonce) other)) time
    ∙ ap (guarded request.timestamp)
        (after_nonce-same (verify_nonce v request.user_address nonce) other request value)
  where
    -- The check of the age.
    guarded : ℕ → SignatureVerifier × Result Bool → SignatureVerifier × Result Bool
    guarded s r =
        if ltb 300 (sub_u64 (seconds now) (seconds s))
        then (v, err (signature_verification (text "Signature too old" ∷ [])))
        else r
