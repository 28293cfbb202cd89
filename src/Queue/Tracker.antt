-- ===== src/Queue/Tracker.antt =====
-- src/queue/tracker.rs: `TransactionTracker`, which polls the chain for the receipts of submitted
-- transactions. What the chain, the hex decoder and the database answer, and what the clock reads,
-- is the environment of a round: it answers for each hash, as a round asks once for each. No other
-- call on the tracker runs during a round. Block numbers are `u64`, as the provider's library gives
-- them, so that the code's conversions change nothing.
mod Rounds
mod Reached
mod Confirmed
mod Tests
use express402_relayer.Common.{
  ℕ, suc, ◌+◌, ◌-◌, ◌%◌, ◌^◌, Bool, true, false, Option, none, some, List, [], ◌∷◌, String, ltb,
  leb, ◌==◌, if◌then◌else◌, length, Map, lookup, insert, remove, update, contains_key, string_eq,
}
use express402_relayer.Types.Error.{
  Message, text, num, ethereum, Answer, or_ethereum, Result, ok, err, panic, ◌>>=◌,
}
use express402_relayer.Types.Transaction.{TransactionStatus}

pub record PendingTransaction : Type 0 where
  pub transaction_id : ℕ
  pub tx_hash : String
  pub submitted_at : ℕ
  pub last_checked : ℕ
  pub check_count : ℕ  -- u32

pub record TransactionTracker : Type 0 where
  pub pending_transactions : Map String PendingTransaction
  pub check_interval : ℕ
  pub confirmation_blocks : ℕ

-- The fields of a receipt that the code reads.
pub record Receipt : Type 0 where
  pub block_number : Option ℕ
  pub gas_used : Option ℕ
  pub status : Option ℕ

pub data TransactionCheckResult : Type 0 where
  pending : TransactionCheckResult
  processing : ℕ → ℕ → ℕ → TransactionCheckResult
  confirmed : ℕ → ℕ → ℕ → TransactionCheckResult
  failed : ℕ → ℕ → TransactionCheckResult

-- `decode` is `hex::decode` of the hash without its 0x prefix.
pub record Environment : Type 0 where
  pub decode : String → Answer (List ℕ)
  pub receipt : String → Answer (Option Receipt)
  pub block_number : String → Answer ℕ
  pub database_error : String → Option Message
  pub elapsed : PendingTransaction → ℕ
  pub now : String → ℕ

-- A call of `update_transaction_status`.
pub record StatusUpdate : Type 0 where
  pub transaction_id : ℕ
  pub status : TransactionStatus
  pub tx_hash : Option String
  pub block_number : Option ℕ
  pub gas_used : Option ℕ
  pub error_message : Option Message

unfoldable pub new : ℕ → ℕ → TransactionTracker
new check_interval confirmation_blocks = record {
  pending_transactions = [];
  check_interval = check_interval;
  confirmation_blocks = confirmation_blocks;
}

abbrev pub require : Option ℕ → String → Result ℕ
require none what = err (ethereum (text what ∷ []))
require (some n) what = ok n

unfoldable pub add_transaction : TransactionTracker → ℕ → String → ℕ → ℕ → TransactionTracker
add_transaction t transaction_id tx_hash submitted_at last_checked = record t {
  pending_transactions = insert tx_hash entry t.pending_transactions;
}
  where
    entry : PendingTransaction
    entry = record {
      transaction_id = transaction_id;
      tx_hash = tx_hash;
      submitted_at = submitted_at;
      last_checked = last_checked;
      check_count = 0;
    }

abbrev pub gas_or_zero : Option ℕ → ℕ
gas_or_zero none = 0
gas_or_zero (some gas) = gas

abbrev pub is_success : Option ℕ → Bool
is_success none = false
is_success (some status) = status == 1

-- The verdict on a receipt at the current block; `saturating_sub` is the subtraction of ℕ.
unfoldable pub judge : ℕ → Receipt → ℕ → ℕ → TransactionCheckResult
judge confirmation_blocks receipt block_number current_block =
    let confirmations : ℕ = current_block - block_number in
    if is_success receipt.status
    then (if leb confirmation_blocks confirmations
        then confirmed block_number (gas_or_zero receipt.gas_used) confirmations
        else processing block_number confirmations confirmation_blocks)
    else failed block_number (gas_or_zero receipt.gas_used)

-- `check_transaction` once there is a receipt.
unfoldable pub check_receipt :
    Environment → ℕ → String → Option Receipt → Result TransactionCheckResult
unfolding judge
check_receipt env confirmation_blocks tx_hash none = ok pending
check_receipt env confirmation_blocks tx_hash (some receipt) = do
  current_block ← or_ethereum "Failed to get block number: " (env.block_number tx_hash)
  block_number ← require receipt.block_number "Receipt missing block number"
  ok (judge confirmation_blocks receipt block_number current_block)

unfoldable pub check_transaction :
    Environment → TransactionTracker → String → Result TransactionCheckResult
unfolding check_receipt
check_transaction env t tx_hash = do
  bytes ← or_ethereum "Invalid tx hash format: " (env.decode tx_hash)
  if length bytes == 32
      then (do
        receipt ← or_ethereum "Failed to get receipt: " (env.receipt tx_hash)
        check_receipt env t.confirmation_blocks tx_hash receipt)
      else err (ethereum (text "Invalid tx hash length: " ∷ num (length bytes) ∷ []))

pub record ProcessResult : Type 0 where
  pub processed : ℕ
  pub confirmed : ℕ
  pub failed : ℕ
  pub errors : ℕ
  pub pending_count : ℕ

-- The state of a round: the tracker, the counts and the calls on the database, latest first.
pub record Progress : Type 0 where
  pub tracker : TransactionTracker
  pub result : ProcessResult
  pub updates : List StatusUpdate

-- A final status is written to the database, and the transaction is forgotten only if that succeeds.
unfoldable pub finish : Environment → String → StatusUpdate → Progress → Progress
finish env tx_hash change r = elim (env.database_error tx_hash) [
  | some e ↦ record r { result = record q { errors = q.errors + 1 }; updates = change ∷ r.updates }
  | none ↦ record r {
    tracker = record t { pending_transactions = remove tx_hash t.pending_transactions };
    updates = change ∷ r.updates;
  }
]
  where
    t : TransactionTracker
    t = r.tracker

    q : ProcessResult
    q = r.result

-- `last_checked` and `check_count` of an entry that is still there.
unfoldable pub touch : ℕ → PendingTransaction → PendingTransaction
touch now p = record p { last_checked = now; check_count = (p.check_count + 1) % 2 ^ 32 }

unfoldable pub touch_entry : Environment → String → Progress → Progress
unfolding touch
touch_entry env tx_hash r = record r {
  tracker = record t {
    pending_transactions = update tx_hash (touch (env.now tx_hash)) t.pending_transactions;
  };
}
  where
    t : TransactionTracker
    t = r.tracker

-- The four cases of a successful check, after `processed += 1`.
unfoldable pub settle :
    Environment → String → PendingTransaction → TransactionCheckResult → Progress → Progress
unfolding finish touch_entry
settle env tx_hash p (confirmed block_number gas_used confirmations) r =
    finish env tx_hash
      (record {
        transaction_id = p.transaction_id;
        status = TransactionStatus.confirmed;
        tx_hash = some tx_hash;
        block_number = some block_number;
        gas_used = some gas_used;
        error_message = none;
      })
      (record r { result = record q { confirmed = q.confirmed + 1 } })
  where
    q : ProcessResult
    q = r.result
settle env tx_hash p (failed block_number gas_used) r =
    finish env tx_hash
      (record {
        transaction_id = p.transaction_id;
        status = TransactionStatus.failed;
        tx_hash = some tx_hash;
        block_number = some block_number;
        gas_used = some gas_used;
        error_message = some (text "Transaction reverted" ∷ []);
      })
      (record r { result = record q { failed = q.failed + 1 } })
  where
    q : ProcessResult
    q = r.result
settle env tx_hash p (processing block_number confirmations required) r =
    elim (lookup tx_hash r.tracker.pending_transactions) [
      | none ↦ r
      | some entry ↦ record (touch_entry env tx_hash r) {
        updates =
            (record {
              transaction_id = entry.transaction_id;
              status = TransactionStatus.processing;
              tx_hash = some tx_hash;
              block_number = none;
              gas_used = none;
              error_message = none;
            })
            ∷ r.updates;
      }
    ]
settle env tx_hash p pending r = touch_entry env tx_hash r

-- One round of the loop: an entry that was checked too recently is skipped. (A check does not panic,
-- as its block numbers fit.)
unfoldable pub visit : Environment → String → PendingTransaction → Progress → Progress
unfolding settle
visit env tx_hash p r =
    if ltb (env.elapsed p) r.tracker.check_interval
    then r
    else elim (check_transaction env r.tracker tx_hash) [
      | ok result ↦
          settle env tx_hash p result
            (record r { result = record q { processed = q.processed + 1 } })
      | err e ↦ record r { result = record q { errors = q.errors + 1 } }
      | panic ↦ r
    ]
  where
    q : ProcessResult
    q = r.result

-- The loop over the entries that were pending when the round began.
unfoldable pub visit_all : Environment → Map String PendingTransaction → Progress → Progress
unfolding visit
visit_all env [] r = r
visit_all env ((tx_hash, p) ∷ rest) r = visit_all env rest (visit env tx_hash p r)

-- The `ProcessResult` that is returned.
abbrev pub report : Progress → Progress
report r = record r { result = record q { pending_count = length r.tracker.pending_transactions } }
  where
    q : ProcessResult
    q = r.result

unfoldable pub process_pending_transactions : Environment → TransactionTracker → Progress
unfolding visit_all
process_pending_transactions env t = report (
    visit_all env t.pending_transactions (record {
      tracker = t;
      result = record { processed = 0; confirmed = 0; failed = 0; errors = 0; pending_count = 0 };
      updates = [];
    }))

unfoldable pub remove_transaction : TransactionTracker → String → TransactionTracker × Bool
unfolding contains_key
remove_transaction t tx_hash = (
  record t { pending_transactions = remove tx_hash t.pending_transactions },
  contains_key tx_hash t.pending_transactions,
)
