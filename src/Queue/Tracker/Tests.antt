-- ===== src/Queue/Tracker/Tests.antt =====
-- The theorems about the tracker at a concrete chain (src/queue/tracker.rs).
use express402_relayer.Common.{
  ℕ, ◌≤◌, ◌≡◌, refl, none, some, Option, List, [], ◌∷◌, lookup, string_eq, String,
}
use express402_relayer.Types.Error.{ok, answered}
use express402_relayer.Queue.Tracker.{
  TransactionTracker, PendingTransaction, Receipt, Environment, confirmed, judge, check_receipt,
  check_transaction, process_pending_transactions,
}
use express402_relayer.Queue.Tracker.Reached.{Call, adds, removes}
use express402_relayer.Queue.Tracker.Rounds.{entries, process_pending_transactions-lookup}
use express402_relayer.Queue.Tracker.Confirmed.{IsDeep, check_transaction-confirmed}

-- A block number of 100, and a receipt of block 90 for every hash.
abbrev receipt : Receipt
receipt = record { block_number = some 90; gas_used = some 21000; status = some 1 }

abbrev hash_bytes : List ℕ
hash_bytes =
    1 ∷ 2 ∷ 3 ∷ 4 ∷ 5 ∷ 6 ∷ 7 ∷ 8 ∷ 9 ∷ 10 ∷ 11 ∷ 12 ∷ 13 ∷ 14 ∷ 15 ∷ 16 ∷ 17 ∷ 18 ∷ 19 ∷ 20 ∷ 21
    ∷ 22 ∷ 23 ∷ 24 ∷ 25 ∷ 26 ∷ 27 ∷ 28 ∷ 29 ∷ 30 ∷ 31 ∷ 32 ∷ []

abbrev chain : Environment
chain = record {
  decode = λ h. answered hash_bytes;
  receipt = λ h. answered (some receipt);
  block_number = λ h. answered 100;
  database_error = λ h. none;
  elapsed = λ p. 20;
  now = λ h. 40;
}

abbrev entry : ℕ → String → PendingTransaction
entry id tx_hash = record {
  transaction_id = id;
  tx_hash = tx_hash;
  submitted_at = 5;
  last_checked = 20;
  check_count = 0;
}

abbrev two_pending : TransactionTracker
two_pending = record {
  pending_transactions = ("0xa", entry 1 "0xa") ∷ ("0xb", entry 2 "0xb") ∷ [];
  check_interval = 10;
  confirmation_blocks = 3;
}

is_confirmed : check_transaction chain two_pending "0xa" ≡ ok (confirmed 90 21000 10)
unfolding check_transaction check_receipt judge
is_confirmed = refl

check_transaction-confirmed_example :
    (r : Option Receipt) × (chain.receipt "0xa" ≡ answered r)
    × IsDeep chain "0xa" 90 10 r
    × (3 ≤ 10)
check_transaction-confirmed_example =
    check_transaction-confirmed chain two_pending "0xa" 90 21000 10 is_confirmed

process_pending_transactions-lookup_example :
    lookup "0xa" (entries (process_pending_transactions chain two_pending)) ≡ none
unfolding check_transaction check_receipt judge lookup
process_pending_transactions-lookup_example =
    process_pending_transactions-lookup chain two_pending "0xa" (refl, (refl, tt))

abbrev calls : List Call
calls = adds 1 "0xa" 5 5 ∷ adds 2 "0xb" 6 6 ∷ removes "0xb" ∷ []
