-- ===== src/Queue/Tracker/Confirmed.antt =====
-- When a transaction counts as confirmed (src/queue/tracker.rs, `check_transaction`).
use express402_relayer.Common.{
  ℕ, ◌-◌, ◌≤◌, ◌≡◌, refl, inl, inr, Option, none, some, String, ◌==◌, length, Bool-cases, arith,
}
use express402_relayer.Types.Error.{ok, ◌>>=◌, >>=-ok, answered, or_ethereum, or_ethereum-ok}
use express402_relayer.Queue.Tracker.{
  TransactionTracker, Receipt, confirmed, Environment, or_ethereum, require, judge, check_receipt,
  check_transaction,
}

require-ok : (o : Option ℕ) (what : String) {n : ℕ} → require o what ≡ ok n → o ≡ some n
require-ok none what e = cc
require-ok (some m) what e = ground arith

judge-confirmed :
    (q : ℕ) (receipt : Receipt) (b' b g c current : ℕ)
    → judge q receipt b' current ≡ confirmed b g c
    → (b' ≡ b) × (receipt.status ≡ some 1) × (c ≡ current - b) × (q ≤ c)
unfolding judge
judge-confirmed q receipt b' b g c current e = ground arith

-- The chain says that the transaction lies in block `b` and succeeded, `c` blocks ago.
pub record IsDeep (env : Environment) (tx_hash : String) (b c : ℕ) (receipt : Option Receipt)
    : Type 0 where
  pub found : Receipt
  pub current : ℕ
  pub is_found : receipt ≡ some found
  pub at_block : found.block_number ≡ some b
  pub succeeded : found.status ≡ some 1
  pub at_head : env.block_number tx_hash ≡ answered current
  pub depth : c ≡ current - b

check_receipt-confirmed :
    (env : Environment) (q : ℕ) (tx_hash : String) (receipt : Option Receipt) (b g c : ℕ)
    → check_receipt env q tx_hash receipt ≡ ok (confirmed b g c)
    → IsDeep env tx_hash b c receipt × (q ≤ c)
unfolding check_receipt
check_receipt-confirmed env q tx_hash none b g c e = cc
check_receipt-confirmed env q tx_hash (some receipt) b g c e =
    let (current, head, e₁) =
      >>=-ok (or_ethereum "Failed to get block number: " (env.block_number tx_hash)) _ e in
    let (b', at, e₂) = >>=-ok (require receipt.block_number "Receipt missing block number") _ e₁ in
    let verdict : judge q receipt b' current ≡ confirmed b g c = ground arith in
    let (same, status, depth, deep) = judge-confirmed q receipt b' b g c current verdict in
    (
      record {
        found = receipt;
        current = current;
        is_found = refl;
        at_block = rw (← same) (require-ok receipt.block_number _ at);
        succeeded = status;
        at_head = or_ethereum-ok _ (env.block_number tx_hash) head;
        depth = depth;
      },
      deep,
    )

-- A transaction is reported as confirmed only if the chain answers with a receipt of status 1, and
-- the block of the receipt lies at least `confirmation_blocks` below the current block; the
-- confirmations reported are that depth.
pub check_transaction-confirmed :
    (env : Environment) (t : TransactionTracker) (tx_hash : String) (b g c : ℕ)
    → check_transaction env t tx_hash ≡ ok (confirmed b g c)
    → (receipt : Option Receipt) × (env.receipt tx_hash ≡ answered receipt)
      × IsDeep env tx_hash b c receipt
      × (t.confirmation_blocks ≤ c)
unfolding check_transaction
check_transaction-confirmed env t tx_hash b g c e =
    let (bytes, _, e₁) = >>=-ok (or_ethereum "Invalid tx hash format: " (env.decode tx_hash)) _ e in
    elim (Bool-cases (length bytes == 32)) [
      | inl full ↦
          let chain : (or_ethereum "Failed to get receipt: " (env.receipt tx_hash)
                >>= check_receipt env t.confirmation_blocks tx_hash)
              ≡ ok (confirmed b g c) =
            ground arith in
          let (receipt, there, e₂) =
            >>=-ok (or_ethereum "Failed to get receipt: " (env.receipt tx_hash)) _ chain in
          let (deep, enough) =
            check_receipt-confirmed env t.confirmation_blocks tx_hash receipt b g c e₂ in
          (receipt, or_ethereum-ok _ (env.receipt tx_hash) there, deep, enough)
      | inr short ↦ absurd (ground arith)
    ]
