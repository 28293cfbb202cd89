-- ===== src/Api/Gateway/Batch.antt =====
-- src/api/gateway.rs: `process_single_transaction` and `submit_batch_transactions`.
use express402_relayer.Common.{
  ℕ, suc, Option, none, some, String, List, [], ◌∷◌, ◌++◌, ltb, ◌==◌, if◌then◌else◌, length,
  string_eq,
}
use express402_relayer.Common.Float.{F64}
use express402_relayer.Common.Text.{codes}
use express402_relayer.Types.Error.{
  Message, text, num, display, Answer, answered, refused, Result, ok, err, panic,
}
use express402_relayer.Types.Transaction.{Priority, TransactionRequest}
use express402_relayer.Utils.Validation.Texts.{Parsers, without_prefix}
use express402_relayer.Queue.Scheduler.{TaskScheduler, schedule_task}
use express402_relayer.Api.Gateway.{
  SubmitTransactionRequest, Reply, success, failure, crash, ApiState, World, store,
}

-- The result of one transaction: its task, or the text of an error; or the code panics.
pub data Outcome (A : Type 0) : Type 0 where
  accepted : A → Outcome A
  rejected : Message → Outcome A
  panicked : Outcome A

infixl 5 ◌>>=◌
abbrev pub ◌>>=◌ : {A B : Type 0} → Outcome A → (A → Outcome B) → Outcome B
accepted a >>= f = f a
rejected m >>= f = rejected m
panicked >>= f = panicked

-- `map_err` into a text.
abbrev pub or_text : {A : Type 0} → Option A → String → Outcome A
or_text none what = rejected (text what ∷ [])
or_text (some a) what = accepted a

abbrev pub decoded : Answer (List ℕ) → Outcome (List ℕ)
decoded (answered bytes) = accepted bytes
decoded (refused m) = rejected (text "Invalid calldata format" ∷ [])

unfoldable pub priority_of : String → Option Priority
priority_of s =
    if string_eq.beq s "low"
    then some Priority.low
    else if string_eq.beq s "normal"
    then some Priority.normal
    else if string_eq.beq s "high"
    then some Priority.high
    else if string_eq.beq s "critical"
    then some Priority.critical
    else none

-- What is parsed of a payload.
pub record Fields : Type 0 where
  pub user_address : ℕ
  pub target_contract : ℕ
  pub calldata : List ℕ
  pub value : ℕ
  pub gas_limit : ℕ
  pub max_fee_per_gas : ℕ
  pub max_priority_fee_per_gas : ℕ
  pub nonce : ℕ
  pub signature_r : ℕ
  pub signature_s : ℕ
  pub priority : Priority

-- `TransactionRequest::new`.
unfoldable pub request_of : Fields → ℕ → ℕ → ℕ → TransactionRequest
request_of f signature_v id now = record {
  id = id;
  user_address = f.user_address;
  target_contract = f.target_contract;
  calldata = f.calldata;
  value = f.value;
  gas_limit = f.gas_limit;
  max_fee_per_gas = f.max_fee_per_gas;
  max_priority_fee_per_gas = f.max_priority_fee_per_gas;
  nonce = f.nonce;
  signature = record { r = f.signature_r; s = f.signature_s; v = signature_v };
  timestamp = now;
  priority = f.priority;
}

module _ (P : Parsers) where
  open P use {parse_address, parse_uint, decode}

  unfoldable pub parse_fields : SubmitTransactionRequest → Outcome Fields
  unfolding without_prefix priority_of
  parse_fields payload = do
    user_address ←
        or_text (parse_address (codes payload.user_address)) "Invalid user_address format"
    target_contract ←
        or_text (parse_address (codes payload.target_contract)) "Invalid target_contract format"
    calldata ← decoded (decode (without_prefix (codes payload.calldata)))
    value ← or_text (parse_uint (codes payload.value)) "Invalid value format"
    gas_limit ← or_text (parse_uint (codes payload.gas_limit)) "Invalid gas_limit format"
    max_fee_per_gas ←
        or_text (parse_uint (codes payload.max_fee_per_gas)) "Invalid max_fee_per_gas format"
    max_priority_fee_per_gas ←
        or_text (parse_uint (codes payload.max_priority_fee_per_gas))
          "Invalid max_priority_fee_per_gas format"
    nonce ← or_text (parse_uint (codes payload.nonce)) "Invalid nonce format"
    signature_r ← or_text (parse_uint (codes payload.signature_r)) "Invalid signature_r format"
    signature_s ← or_text (parse_uint (codes payload.signature_s)) "Invalid signature_s format"
    priority ← or_text (priority_of payload.priority) "Invalid priority"
    accepted (record {
      user_address = user_address;
      target_contract = target_contract;
      calldata = calldata;
      value = value;
      gas_limit = gas_limit;
      max_fee_per_gas = max_fee_per_gas;
      max_priority_fee_per_gas = max_priority_fee_per_gas;
      nonce = nonce;
      signature_r = signature_r;
      signature_s = signature_s;
      priority = priority;
    })

module _ (F : F64) where
  abbrev pub queued : ApiState F → TaskScheduler × Result ℕ → ApiState F × Outcome ℕ
  queued s (q, ok id) = (record s { task_scheduler = q }, accepted id)
  queued s (q, err e) =
      (record s { task_scheduler = q }, rejected (text "Scheduler error: " ∷ display e))
  queued s (q, panic) = (record s { task_scheduler = q }, panicked)

  -- The row and the task of a request.
  unfoldable pub submit_single : ApiState F → World F → TransactionRequest → ApiState F × Outcome ℕ
  unfolding schedule_task
  submit_single s w t = elim w.database_error [
    | some e ↦ (s, rejected (text "Database error: " ∷ display e))
    | none ↦ queued (store F t s) (schedule_task s.task_scheduler t w.created_at w.scheduled_at)
  ]

  abbrev pub submit_parsed : ApiState F → World F → ℕ → Outcome Fields → ApiState F × Outcome ℕ
  submit_parsed s w v (accepted f) = submit_single s w (request_of f v w.id w.timestamp)
  submit_parsed s w v (rejected m) = (s, rejected m)
  submit_parsed s w v panicked = (s, panicked)

  abbrev pub note : ℕ → Message → Message
  note index m = text "Transaction " ∷ num index ∷ text ": " ∷ m

  abbrev pub Collected : Type 0
  Collected = List ℕ × List Message

  -- What one transaction adds to the two lists; a panic ends the handler (`none`).
  abbrev pub collect : ℕ → Outcome ℕ → Collected → Option Collected
  collect index (accepted id) (ids, errors) = some (ids ++ id ∷ [], errors)
  collect index (rejected m) (ids, errors) = some (ids, errors ++ note index m ∷ [])
  collect index panicked lists = none

  -- `join("; ")`.
  unfoldable pub join : List Message → Message
  join [] = []
  join (m ∷ []) = m
  join (m ∷ n ∷ rest) = m ++ text "; " ∷ join (n ∷ rest)

  pub record BatchTransactionResponse : Type 0 where
    pub batch_id : ℕ
    pub transaction_ids : List ℕ
    pub status : String
    pub message : Message

  unfoldable pub batch_response : ℕ → Collected → BatchTransactionResponse
  unfolding join
  batch_response batch_id (ids, errors) = record {
    batch_id = batch_id;
    transaction_ids = ids;
    status =
        if length errors == 0 then "success" else if length ids == 0 then "failed" else "partial";
    message =
        if length errors == 0
        then text "Successfully submitted " ∷ num (length ids) ∷ text " transactions" ∷ []
        else text "Submitted "
          ∷ num (length ids)
          ∷ text " transactions, "
          ∷ num (length errors)
          ∷ text " failed: "
          ∷ join errors;
  }

  abbrev pub batch_reply :
      ℕ → ApiState F × Option Collected → ApiState F × Reply BatchTransactionResponse
  batch_reply batch_id (s, none) = (s, crash)
  batch_reply batch_id (s, some lists) = (s, success (batch_response batch_id lists))

  module _ (P : Parsers) where
    unfoldable pub process_single_transaction :
        ApiState F → SubmitTransactionRequest → World F → ApiState F × Outcome ℕ
    unfolding parse_fields request_of submit_single
    process_single_transaction s payload w =
        submit_parsed s w payload.signature_v (parse_fields P payload)

    -- The loop over the transactions of a batch, each with what the world answers to it.
    unfoldable pub process_all :
        ℕ
        → ApiState F
        → Collected
        → List (SubmitTransactionRequest × World F)
        → ApiState F × Option Collected
    unfolding process_single_transaction
    process_all index s lists [] = (s, some lists)
    process_all index s lists ((payload, w) ∷ rest) =
        let (s', outcome) = process_single_transaction s payload w in
        elim (collect index outcome lists) [
          | none ↦ (s', none)
          | some lists' ↦ process_all (suc index) s' lists' rest
        ]

    unfoldable pub submit_batch_transactions :
        ApiState F
        → List (SubmitTransactionRequest × World F)
        → ℕ
        → ApiState F × Reply BatchTransactionResponse
    unfolding process_all batch_response
    submit_batch_transactions s transactions batch_id =
        if length transactions == 0
        then (s, failure 400 (text "Batch must contain at least one transaction" ∷ []) "")
        else if ltb 100 (length transactions)
        then (s, failure 400 (text "Batch size exceeds maximum limit of 100 transactions" ∷ []) "")
        else batch_reply batch_id (process_all 0 s ([], []) transactions)
