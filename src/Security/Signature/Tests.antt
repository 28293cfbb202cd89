-- ===== src/Security/Signature/Tests.antt =====
-- The theorems about signatures at concrete requests (src/security/signature.rs).
use express402_relayer.Common.{ℕ, ◌≡◌, ◌≢◌, refl, true, [], ◌∷◌, lookup, insert, nat_eq, arith}
use express402_relayer.Types.Error.{ok}
use express402_relayer.Types.Samples.{request}
use express402_relayer.Types.Transaction.{TransactionRequest, low, high}
use express402_relayer.Security.Signature.{
  SignatureVerifier, current_nonce, verify_transaction_signature,
}
use express402_relayer.Security.Signature.Nonces.{
  run, verify_transaction_signature-grows, verify_transaction_signature-ignores,
}

abbrev verifier : ℕ → SignatureVerifier
verifier n = record {
  domain = record {
    name = "Express402Relayer";
    version = "1";
    chain_id = 56;
    verifying_contract = 99;
  };
  nonce_cache = (77, n) ∷ [];
}

accepted :
    verify_transaction_signature (verifier 3) (request 1 low) 5 2_000_000_000
    ≡ (verifier 5, ok true)
unfolding verify_transaction_signature current_nonce lookup insert
accepted = refl

verify_transaction_signature-grows_example :
    (verify_transaction_signature
      (run (verifier 5) ((request 2 high, 6, 3_000_000_000) ∷ []))
      (request 3 low)
      5
      4_000_000_000).1
    ≢ ok true
verify_transaction_signature-grows_example =
    verify_transaction_signature-grows (verifier 3) (verifier 5) (request 1 low) (request 3 low) 5 5
      2_000_000_000 4_000_000_000 ((request 2 high, 6, 3_000_000_000) ∷ []) accepted refl
      (omega arith)

-- The signed value has been changed from 5 to 1000.
abbrev forged : TransactionRequest
forged = record (request 1 low) { value = 1000 }

verify_transaction_signature-ignores_example :
    verify_transaction_signature (verifier 3) forged 5 2_000_000_000
    ≡ verify_transaction_signature (verifier 3) (request 1 low) 5 2_000_000_000
verify_transaction_signature-ignores_example =
    verify_transaction_signature-ignores (verifier 3) (request 1 low) forged 5 2_000_000_000 refl
      refl refl
