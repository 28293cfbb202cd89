-- ===== src/Api/Gateway/Tests.antt =====
-- The theorems about submissions at concrete requests (src/api/gateway.rs).
use express402_relayer.Common.{
  ℕ, ◌+◌, ◌≤◌, ◌≡◌, ◌≢◌, refl, true, false, length, none, some, List, [], ◌∷◌, count_if, lookup,
  any, nat_eq, arith,
}
use express402_relayer.Common.Samples.{fixed, uint}
use express402_relayer.Common.Text.{codes}
use express402_relayer.Types.Error.{answered}
use express402_relayer.Types.Transaction.{Priority, TransactionRequest}
use express402_relayer.Types.Wallet.{WalletInfo}
use express402_relayer.Utils.Validation.Hex.{value}
use express402_relayer.Utils.Validation.Samples.{parsers}
use express402_relayer.Wallet.Pool.{WalletPool, round_robin}
use express402_relayer.Queue.Scheduler
use express402_relayer.Queue.Scheduler.{schedule_task, is_full, get_queue_stats}
use express402_relayer.Security.Signature
use express402_relayer.Security.Signature.{
  verify_nonce, verify_eip712_signature, verify_transaction_signature, current_nonce,
}
use express402_relayer.Security.Replay
use express402_relayer.Security.Replay.{Chrono, check_and_record, window, record_in, user_entries}
use express402_relayer.Api.Gateway.{
  SubmitTransactionRequest, Reply, success, validated_request, ApiState, World, submit_transaction,
}
use express402_relayer.Api.Gateway.Accepted.{IsAccepted, submit_transaction-IsAccepted}
use express402_relayer.Api.Gateway.Once.{Action, submits, ticks, act_all, submit_transaction-once}
use express402_relayer.Api.Gateway.Batch.{
  accepted, Fields, parse_fields, process_single_transaction,
}
use express402_relayer.Api.Gateway.Unverified.{
  guarded, process_single_transaction-unverified, process_single_transaction-repeats,
}

-- A calendar that begins at 0.
abbrev calendar : Chrono
calendar = record { from_std = λ d. answered d; represents = λ now d. true }

abbrev wallet : WalletInfo fixed
wallet = record {
  address = 1;
  private_key = some 1;
  balance = 0;
  nonce = 0;
  is_active = true;
  last_used = 5;
  success_rate = 1000;
  total_transactions = 0;
  failed_transactions = 0;
}

abbrev pool : WalletPool fixed
pool = record {
  wallets = wallet ∷ [];
  active_wallets = 1 ∷ [];
  wallet_usage = [];
  config = record {
    min_wallets = 1;
    max_wallets = 5;
    balance_threshold = 0;
    rotation_interval = 60;
    health_check_interval = 60;
    max_concurrent_transactions = 4;
    min_balance = 0;
    transaction_timeout = 60;
    retry_attempts = 3;
    retry_delay = 1;
  };
  rotation_strategy = round_robin;
  permits = 4;
}

abbrev state : ApiState fixed
state = record {
  transactions = [];
  wallet_pool = pool;
  task_scheduler = Scheduler.new 3 10 60;
  signature_verifier = Signature.new 1 5;
  replay_protection = Replay.new 100 10;
  enable_replay_protection = true;
}

abbrev world : ℕ → ℕ → World fixed
world id now = record {
  id = id;
  timestamp = now;
  verified_at = now;
  checked_at = now;
  poisoned = none;
  database_error = none;
  created_at = now;
  scheduled_at = now;
}

abbrev payload : SubmitTransactionRequest
payload = record {
  user_address = "0x5aAeb6053F3E94C9b9A09f33669435E7Ef1BeAed";
  target_contract = "0xfB6916095ca1df60bB79Ce92cE3Ea74c37c5d359";
  calldata = "0xabcd";
  value = "0x5";
  gas_limit = "0x5208";
  max_fee_per_gas = "0x6FC23AC00";
  max_priority_fee_per_gas = "0x77359400";
  nonce = "7";
  signature_r = "0x1";
  signature_s = "0x2";
  signature_v = 27;
  priority = "high";
}

abbrev first_reply : ApiState fixed × Reply ℕ
first_reply = submit_transaction fixed calendar uint parsers state payload (world 9 50)

first_accepted : first_reply.1 ≡ success 9
unfolding submit_transaction lookup Signature.new any Replay.new count_if Scheduler.new
first_accepted = refl

submit_transaction-IsAccepted_example :
    (t : TransactionRequest) × IsAccepted fixed calendar uint parsers state first_reply.0 payload
      (world 9 50)
      9
      t
submit_transaction-IsAccepted_example =
    submit_transaction-IsAccepted fixed calendar uint parsers state payload (world 9 50) 9
      first_accepted

abbrev request : ℕ → ℕ → TransactionRequest
request id now = record {
  id = id;
  user_address = 42;
  target_contract = 42;
  calldata = 97 ∷ 98 ∷ 99 ∷ 100 ∷ [];
  value = 5;
  gas_limit = value 16 (codes "5208");
  max_fee_per_gas = value 16 (codes "6FC23AC00");
  max_priority_fee_per_gas = value 16 (codes "77359400");
  nonce = 7;
  signature = record { r = 1; s = 2; v = 27 };
  timestamp = now;
  priority = Priority.high;
}

read_first : validated_request uint parsers payload 9 50 ≡ success (request 9 50)
unfolding validated_request
read_first = refl

read_second : validated_request uint parsers payload 10 70 ≡ success (request 10 70)
unfolding validated_request
read_second = refl

abbrev between : List (Action fixed calendar uint parsers)
between = submits payload (world 11 60) ∷ ticks none 65 ∷ []

submit_transaction-once_example :
    (submit_transaction fixed calendar uint parsers
      (act_all fixed calendar uint parsers first_reply.0 between)
      payload
      (world 10 70)).1
    ≢ success 10
unfolding Replay.new
submit_transaction-once_example =
    submit_transaction-once fixed calendar uint parsers state payload payload (world 9 50)
      (world 10 70) (request 9 50) (request 10 70) between 100 9 10 refl (omega arith) refl
      first_accepted read_first (omega arith, (omega arith, tt)) read_second refl refl (omega arith)

-- Fields that no validation would accept.
abbrev unchecked : SubmitTransactionRequest
unchecked = record payload { gas_limit = "0"; signature_v = 5; signature_r = "0" }

process_single_transaction-unverified_example :
    (process_single_transaction fixed parsers
      (guarded fixed state (Signature.new 3 3) (Replay.new 5 5) false)
      (record payload { signature_v = 5 })
      (world 9 50)).1
    ≡ (process_single_transaction fixed parsers state payload (world 9 50)).1
process_single_transaction-unverified_example =
    process_single_transaction-unverified fixed parsers state payload (world 9 50) 5
      (Signature.new 3 3) (Replay.new 5 5) false

abbrev fields : Fields
fields = record {
  user_address = 42;
  target_contract = 42;
  calldata = 97 ∷ 98 ∷ 99 ∷ 100 ∷ [];
  value = value 10 (codes "0x5");
  gas_limit = 0;
  max_fee_per_gas = value 10 (codes "0x6FC23AC00");
  max_priority_fee_per_gas = value 10 (codes "0x77359400");
  nonce = 7;
  signature_r = 0;
  signature_s = value 10 (codes "0x2");
  priority = Priority.high;
}

fields_read : parse_fields parsers unchecked ≡ accepted fields
unfolding parse_fields
fields_read = refl

room : length state.task_scheduler.priority_queue + 2 ≤ state.task_scheduler.max_queue_size
unfolding Scheduler.new
room = omega arith

process_single_transaction-repeats_example :
    ((process_single_transaction fixed parsers state unchecked (world 9 50)).1 ≡ accepted 9)
    × ((process_single_transaction fixed parsers
          (process_single_transaction fixed parsers state unchecked (world 9 50)).0
          unchecked
          (world 10 60)).1
        ≡ accepted 10)
process_single_transaction-repeats_example =
    process_single_transaction-repeats fixed parsers state unchecked fields (world 9 50)
      (world 10 60) fields_read refl refl room
