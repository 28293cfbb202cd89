-- ===== src/Types/Samples.antt =====
-- Requests for tests (src/types/transaction.rs).
use express402_relayer.Common.{ℕ, []}
use express402_relayer.Types.Transaction.{Priority, TransactionRequest}

abbrev pub request : ℕ → Priority → TransactionRequest
request id priority = record {
  id = id;
  user_address = 77;
  target_contract = 88;
  calldata = [];
  value = 5;
  gas_limit = 21000;
  max_fee_per_gas = 30_000_000_000;
  max_priority_fee_per_gas = 2_000_000_000;
  nonce = 1;
  signature = record { r = 1; s = 1; v = 27 };
  timestamp = 1000;
  priority = priority;
}
