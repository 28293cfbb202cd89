-- ===== src/Api/Gateway.antt =====
-- src/api/gateway.rs: the handlers that submit and cancel transactions. The database is the list of the
-- rows that `create_transaction` has inserted; whether it accepts one is an argument, as is each reading of
-- the clock and the identifier of the request. A response is its status and the text of its error; `decode`
-- and the parsers are the libraries'. `submit_transaction` verifies with a copy of the verifier, which is
-- dropped.
mod Placed
mod Accepted
mod Calls
mod Once
pub mod Batch
mod Unverified
mod Tests
use express402_relayer.Common.{
  ℕ, suc, ◌+◌, Bool, true, false, not, ◌||◌, Option, none, some, String, List, [], ◌∷◌, ◌++◌, ltb,
  ◌==◌, if◌then◌else◌, length, string_eq,
}
use express402_relayer.Common.Float.{F64}
use express402_relayer.Common.Uint.{Uint}
use express402_relayer.Common.Text.{codes}
use express402_relayer.Types.Error.{
  RelayerError, Message, text, num, display, Answer, answered, refused, Result, ok, err, panic,
}
use express402_relayer.Types.Transaction.{Priority, Signature, TransactionRequest}
use express402_relayer.Utils.Validation.{
  Params, validate_address, validate_gas_limit, validate_gas_prices, validate_value, validate_nonce,
  validate_signature, validate_transaction_params,
}
use express402_relayer.Utils.Validation.Texts.{
  Parsers, without_prefix, validate_address_string, validate_calldata_string, parse_u256,
  validate_priority,
}
use express402_relayer.Wallet.Pool.{WalletPool, get_pool_stats}
use express402_relayer.Queue.Scheduler.{TaskScheduler, schedule_task, cancel_task, get_queue_stats}
use express402_relayer.Security.Signature.{SignatureVerifier, verify_transaction_signature}
use express402_relayer.Security.Replay.{ReplayProtection, Chrono, check_and_record}

pub record SubmitTransactionRequest : Type 0 where
  pub user_address : String
  pub target_contract : String
  pub calldata : String
  pub value : String
  pub gas_limit : String
  pub max_fee_per_gas : String
  pub max_priority_fee_per_gas : String
  pub nonce : String
  pub signature_r : String
  pub signature_s : String
  pub signature_v : ℕ  -- u8
  pub priority : String

-- The answer of a handler: a value, or a status with a message and a code; or the handler panics.
pub data Reply (A : Type 0) : Type 0 where
  success : A → Reply A
  failure : ℕ → Message → String → Reply A
  crash : Reply A

infixl 5 ◌>>=◌ ◌>>◌
abbrev pub ◌>>=◌ : {A B : Type 0} → Reply A → (A → Reply B) → Reply B
success a >>= f = f a
failure status m code >>= f = failure status m code
crash >>= f = crash

abbrev pub ◌>>◌ : {A B : Type 0} → Reply A → Reply B → Reply B
m >> k = m >>= λ _. k

-- `map_err` into a response.
abbrev pub or_reply : ℕ → String → {A : Type 0} → Result A → Reply A
or_reply status code (ok a) = success a
or_reply status code (err e) = failure status (display e) code
or_reply status code panic = crash

abbrev pub bad : String → {A : Type 0} → Result A → Reply A
bad code = or_reply 400 code

abbrev pub params : TransactionRequest → Params
params t = record {
  user_address = t.user_address;
  target_contract = t.target_contract;
  calldata = t.calldata;
  value = t.value;
  gas_limit = t.gas_limit;
  max_fee_per_gas = t.max_fee_per_gas;
  max_priority_fee_per_gas = t.max_priority_fee_per_gas;
  nonce = t.nonce;
  signature = t.signature;
}

module _ (U : Uint) (P : Parsers) where
  -- The checks of a new request.
  unfoldable pub read_request : SubmitTransactionRequest → ℕ → ℕ → Reply TransactionRequest
  unfolding validate_address_string validate_address validate_calldata_string parse_u256
      validate_value validate_gas_limit validate_gas_prices validate_nonce validate_priority
      validate_signature validate_transaction_params
  read_request payload id now = do
    (if length (codes payload.user_address) == 0 || length (codes payload.target_contract) == 0
        then failure 400
            (text "Invalid request: user_address and target_contract are required" ∷ []) ""
        else success tt)
    user_address ← bad "INVALID_ADDRESS" (validate_address_string P payload.user_address)
    target_contract ← bad "INVALID_ADDRESS" (validate_address_string P payload.target_contract)
    bad "INVALID_ADDRESS" (validate_address user_address)
    bad "INVALID_ADDRESS" (validate_address target_contract)
    calldata ← bad "INVALID_CALLDATA" (validate_calldata_string P payload.calldata)
    value ← bad "INVALID_VALUE" (parse_u256 P payload.value)
    bad "INVALID_VALUE" (validate_value U value)
    gas_limit ← bad "INVALID_GAS_LIMIT" (parse_u256 P payload.gas_limit)
    bad "INVALID_GAS_LIMIT" (validate_gas_limit U gas_limit)
    max_fee_per_gas ← bad "INVALID_GAS_PRICE" (parse_u256 P payload.max_fee_per_gas)
    max_priority_fee_per_gas ←
        bad "INVALID_GAS_PRICE" (parse_u256 P payload.max_priority_fee_per_gas)
    bad "INVALID_GAS_PRICE" (validate_gas_prices U max_fee_per_gas max_priority_fee_per_gas)
    nonce ← bad "INVALID_NONCE" (parse_u256 P payload.nonce)
    bad "INVALID_NONCE" (validate_nonce U nonce)
    signature_r ← bad "INVALID_SIGNATURE" (parse_u256 P payload.signature_r)
    signature_s ← bad "INVALID_SIGNATURE" (parse_u256 P payload.signature_s)
    priority ← bad "INVALID_PRIORITY" (validate_priority payload.priority)
    bad "INVALID_SIGNATURE"
        (validate_signature (record { r = signature_r; s = signature_s; v = payload.signature_v }))
    success (record {
      id = id;
      user_address = user_address;
      target_contract = target_contract;
      calldata = calldata;
      value = value;
      gas_limit = gas_limit;
      max_fee_per_gas = max_fee_per_gas;
      max_priority_fee_per_gas = max_priority_fee_per_gas;
      nonce = nonce;
      signature = record { r = signature_r; s = signature_s; v = payload.signature_v };
      timestamp = now;
      priority = priority;
    })

  -- With the comprehensive check at the end.
  unfoldable pub validated_request : SubmitTransactionRequest → ℕ → ℕ → Reply TransactionRequest
  unfolding read_request validate_transaction_params
  validated_request payload id now = read_request payload id now >>= λ t.
      bad "VALIDATION_FAILED" (validate_transaction_params U (params t)) >> success t

module _ (F : F64) where
  -- The parts that a handler uses.
  pub record ApiState : Type 0 where
    pub transactions : List TransactionRequest
    pub wallet_pool : WalletPool F
    pub task_scheduler : TaskScheduler
    pub signature_verifier : SignatureVerifier
    pub replay_protection : ReplayProtection
    pub enable_replay_protection : Bool

  -- What the world answers during a call: the identifier of the request, its time, those of the
  -- verification and of the replay check, whether the lock of the latter is poisoned, what the database says,
  -- and the two times of `schedule_task`.
  pub record World : Type 0 where
    pub id : ℕ
    pub timestamp : ℕ
    pub verified_at : ℕ
    pub checked_at : ℕ
    pub poisoned : Option Message
    pub database_error : Option RelayerError
    pub created_at : ℕ
    pub scheduled_at : ℕ

  abbrev pub store : TransactionRequest → ApiState → ApiState
  store t s = record s { transactions = s.transactions ++ t ∷ [] }

  abbrev pub scheduled : ApiState → TaskScheduler × Result ℕ → ApiState × Reply ℕ
  scheduled s (q, r) = (record s { task_scheduler = q }, or_reply 503 "SCHEDULER_ERROR" r)

  -- The end of `submit_transaction`: the wallets, the permits, the row and the task.
  unfoldable pub place : ApiState → World → TransactionRequest → ApiState × Reply ℕ
  unfolding get_pool_stats get_queue_stats schedule_task
  place s w t =
      if (get_pool_stats F s.wallet_pool).healthy_wallets == 0
      then (s, failure 503 (text "No healthy wallets available" ∷ []) "WALLET_UNAVAILABLE")
      else if (get_queue_stats s.task_scheduler).available_permits == 0
      then (s, failure 503 (text "Transaction queue is full" ∷ []) "QUEUE_FULL")
      else elim w.database_error [
        | some e ↦
            (s, failure 500 (text "Failed to store transaction: " ∷ display e) "DATABASE_ERROR")
        | none ↦
            scheduled (store t s) (schedule_task s.task_scheduler t w.created_at w.scheduled_at)
      ]

  -- After the answer of the replay check.
  unfoldable pub after_replay :
      ApiState → World → TransactionRequest → ReplayProtection × Result Bool → ApiState × Reply ℕ
  unfolding place
  after_replay s w t (p, ok fresh) = place (record s { replay_protection = p }) w t
  after_replay s w t (p, err e) = (
    record s { replay_protection = p },
    failure 400 (text "Replay attack detected: " ∷ display e) "REPLAY_ATTACK",
  )
  after_replay s w t (p, panic) = (record s { replay_protection = p }, crash)

  module _ (C : Chrono) where
    unfoldable pub check_replay : ApiState → World → TransactionRequest → ℕ → ApiState × Reply ℕ
    unfolding check_and_record after_replay place
    check_replay s w t nonce =
        if s.enable_replay_protection
        then after_replay s w t (
            check_and_record C s.replay_protection w.poisoned t.user_address nonce none
              w.checked_at)
        else place s w t

    -- After the answer of the verifier.
    unfoldable pub after_verification :
        ApiState → World → TransactionRequest → ℕ → Result Bool → ApiState × Reply ℕ
    unfolding check_replay
    after_verification s w t nonce (ok true) = check_replay s w t nonce
    after_verification s w t nonce (ok false) =
        (s, failure 401 (text "Signature verification failed" ∷ []) "INVALID_SIGNATURE")
    after_verification s w t nonce (err e) =
        (s, failure 400 (text "Signature verification error: " ∷ display e) "SIGNATURE_ERROR")
    after_verification s w t nonce panic = (s, crash)

    -- `nonce.to::<u64>()`, then the verification by a copy of the verifier.
    unfoldable pub admit : ApiState → World → TransactionRequest → Option ℕ → ApiState × Reply ℕ
    unfolding verify_transaction_signature after_verification
    admit s w t none = (s, crash)
    admit s w t (some nonce) =
        after_verification s w t nonce
          (verify_transaction_signature s.signature_verifier t nonce w.verified_at).1

    module _ (U : Uint) (P : Parsers) where
      abbrev pub admit_reply : ApiState → World → Reply TransactionRequest → ApiState × Reply ℕ
      admit_reply s w (success t) = admit s w t (U.to_u64 t.nonce)
      admit_reply s w (failure status m code) = (s, failure status m code)
      admit_reply s w crash = (s, crash)

      unfoldable pub submit_transaction :
          ApiState → SubmitTransactionRequest → World → ApiState × Reply ℕ
      unfolding validated_request admit
      submit_transaction s payload w =
          admit_reply s w (validated_request U P payload w.id w.timestamp)

  -- The answer of the database to the update of the row is an argument, as the row's new status is not read
  -- again here.
  unfoldable pub cancel_transaction : ApiState → ℕ → Option RelayerError → ApiState × Reply ℕ
  unfolding cancel_task
  cancel_transaction s transaction_id database_error =
      let cancelled = cancel_task s.task_scheduler transaction_id in
      let s' = record s { task_scheduler = cancelled.0 } in
      if cancelled.1
      then elim database_error [
        | some e ↦ (s', failure 500 (text "Failed to update transaction status: " ∷ display e) "")
        | none ↦ (s', success transaction_id)
      ]
      else (s', failure 404 (text "Transaction not found or cannot be cancelled" ∷ []) "")
