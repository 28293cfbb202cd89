-- ===== src/Security/Signature.antt =====
-- src/security/signature.rs: `SignatureVerifier`. Times are in nanoseconds, and `timestamp()` is in
-- seconds; the difference of two of them wraps in 64 bits. The calldata of a message is the bytes of
-- which the source keeps the text in base 16.
mod Nonces
mod Tests
use express402_relayer.Common.{
  ℕ, ◌/◌, Bool, true, false, not, ◌&&◌, Option, none, some, List, [], ◌∷◌, String, ltb, leb, ◌==◌,
  if◌then◌else◌, Map, lookup, insert, nat_eq,
}
use express402_relayer.Types.Error.{Message, text, signature_verification, Result, ok, err}
use express402_relayer.Types.Transaction.{Signature, TransactionRequest}
use express402_relayer.Types.Wallet.{sub_u64}

pub record Eip712Domain : Type 0 where
  pub name : String
  pub version : String
  pub chain_id : ℕ
  pub verifying_contract : ℕ

pub record TransactionMessage : Type 0 where
  pub user_address : ℕ
  pub target_contract : ℕ
  pub calldata : List ℕ
  pub value : ℕ
  pub gas_limit : ℕ
  pub max_fee_per_gas : ℕ
  pub max_priority_fee_per_gas : ℕ
  pub nonce : ℕ
  pub timestamp : ℕ

pub record SignatureVerifier : Type 0 where
  pub domain : Eip712Domain
  pub nonce_cache : Map ℕ ℕ

unfoldable pub new : ℕ → ℕ → SignatureVerifier
new chain_id verifying_contract = record {
  domain = record {
    name = "Express402Relayer";
    version = "1";
    chain_id = chain_id;
    verifying_contract = verifying_contract;
  };
  nonce_cache = [];
}

-- `get(&address).copied().unwrap_or(0)`.
unfoldable pub current_nonce : SignatureVerifier → ℕ → ℕ
current_nonce v address = elim (lookup address v.nonce_cache) [ none ↦ 0 | some n ↦ n ]

unfoldable pub verify_nonce : SignatureVerifier → ℕ → ℕ → SignatureVerifier × Bool
unfolding current_nonce
verify_nonce v address nonce =
    if leb nonce (current_nonce v address)
    then (v, false)
    else (record v { nonce_cache = insert address nonce v.nonce_cache }, true)

-- `_message` and `_expected_address` are not read.
unfoldable pub verify_eip712_signature :
    SignatureVerifier → TransactionMessage → Signature → ℕ → Result Bool
verify_eip712_signature v message signature expected_address =
    if not (signature.v == 27) && not (signature.v == 28)
    then err (signature_verification (text "Invalid signature v value" ∷ []))
    else ok true

-- `timestamp() as u64`.
abbrev pub seconds : ℕ → ℕ
seconds t = t / 1_000_000_000

-- The message that was signed.
unfoldable pub message_of : TransactionRequest → TransactionMessage
message_of request = record {
  user_address = request.user_address;
  target_contract = request.target_contract;
  calldata = request.calldata;
  value = request.value;
  gas_limit = request.gas_limit;
  max_fee_per_gas = request.max_fee_per_gas;
  max_priority_fee_per_gas = request.max_priority_fee_per_gas;
  nonce = request.nonce;
  timestamp = seconds request.timestamp;
}

-- `verify_transaction_signature` after the check of the age.
abbrev pub after_nonce :
    SignatureVerifier × Bool → TransactionRequest → SignatureVerifier × Result Bool
after_nonce (v, false) request = (v, err (signature_verification (text "Invalid nonce" ∷ [])))
after_nonce (v, true) request =
    (v, verify_eip712_signature v (message_of request) request.signature request.user_address)

unfoldable pub verify_transaction_signature :
    SignatureVerifier → TransactionRequest → ℕ → ℕ → SignatureVerifier × Result Bool
unfolding verify_nonce verify_eip712_signature message_of
verify_transaction_signature v request expected_nonce now =
    if ltb 300 (sub_u64 (seconds now) (seconds request.timestamp))
    then (v, err (signature_verification (text "Signature too old" ∷ [])))
    else after_nonce (verify_nonce v request.user_address expected_nonce) request
