-- ===== src/Types/Transaction.antt =====
-- src/types/transaction.rs: the request that a user signs. Addresses, identifiers and `U256` values
-- are numbers, and call data is a list of bytes.
use express402_relayer.Common.{ℕ, ◌≤◌, List, arith}

pub data Priority : Type 0 where
  low normal high critical : Priority

-- `Priority::weight`.
unfoldable pub weight : Priority → ℕ
weight Priority.low = 1
weight Priority.normal = 2
weight Priority.high = 3
weight Priority.critical = 4

pub record Signature : Type 0 where
  pub r : ℕ
  pub s : ℕ
  pub v : ℕ  -- u8

pub record TransactionRequest : Type 0 where
  pub id : ℕ
  pub user_address : ℕ
  pub target_contract : ℕ
  pub calldata : List ℕ
  pub value : ℕ
  pub gas_limit : ℕ
  pub max_fee_per_gas : ℕ
  pub max_priority_fee_per_gas : ℕ
  pub nonce : ℕ
  pub signature : Signature
  pub timestamp : ℕ
  pub priority : Priority

pub data TransactionStatus : Type 0 where
  pending processing submitted confirmed failed cancelled : TransactionStatus

pub weight_bounds : (p : Priority) → (1 ≤ weight p) × (weight p ≤ 4)
unfolding weight
weight_bounds p = ground arith
