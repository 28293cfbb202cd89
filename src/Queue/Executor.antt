-- ===== src/Queue/Executor.antt =====
-- src/queue/executor.rs: `TaskExecutor`, the loop that takes tasks from the scheduler, sends their
-- transactions with a wallet of the pool and hands them to the tracker. What the chain, the signer and
-- the clock answer during one execution is an argument, `Attempt`; the answers of the database are
-- only logged by the code, and its calls are kept in `updates`, latest first.
mod Iteration
mod Panics
mod Drain
mod Tests
use express402_relayer.Common.{
  ℕ, ◌+◌, ◌-◌, Bool, true, false, not, ◌&&◌, Option, none, some, List, [], ◌∷◌, String, ltb,
  if◌then◌else◌, string_eq,
}
use express402_relayer.Common.Float.{F64}
use express402_relayer.Common.Uint.{Uint}
use express402_relayer.Types.Error.{
  Message, text, internal, display, RelayerError, Answer, answered, refused, or_ethereum, Result,
  ok, err, panic, or_panic, ◌>>=◌,
}
use express402_relayer.Types.Transaction.{
  Priority, low, normal, high, critical, TransactionRequest, TransactionStatus,
}
use express402_relayer.Types.Wallet.{WalletInfo}
use express402_relayer.Utils.Gas.{GasPriceOracle, GasPriceInfo, get_recommended_gas_price}
use express402_relayer.Wallet.Pool.{WalletPool, acquire_wallet, release_wallet}
use express402_relayer.Queue.Scheduler.{
  ScheduledTask, TaskScheduler, get_next_task, complete_task, retry_task,
}
use express402_relayer.Queue.Tracker.{TransactionTracker, add_transaction, StatusUpdate}

-- The request that is sent to the chain.
pub record ChainRequest : Type 0 where
  pub from : ℕ
  pub to : ℕ
  pub value : ℕ
  pub input : List ℕ
  pub gas_limit : ℕ
  pub max_fee_per_gas : ℕ
  pub max_priority_fee_per_gas : ℕ
  pub nonce : ℕ
  pub chain_id : ℕ

-- What the world answers during one execution. `signer` is `SigningKey::from_bytes` with the address
-- of the key; `clock n` is the n-th reading of the clock.
pub record Attempt : Type 0 where
  pub closed : Option Message
  pub draw : ℕ
  pub wallet_nonce : Answer ℕ
  pub chain_id : Answer ℕ
  pub signer : ℕ → Answer ℕ
  pub send : ChainRequest → Answer String
  pub clock : ℕ → ℕ

pub record ExecutionResult : Type 0 where
  pub task_id : ℕ
  pub success : Bool
  pub tx_hash : Option String
  pub error_message : Option Message
  pub execution_time : ℕ

-- The text of a priority, as the oracle is asked for it.
unfoldable pub priority_str : Priority → String
priority_str low = "low"
priority_str normal = "normal"
priority_str high = "high"
priority_str critical = "critical"

abbrev pub sign : Answer ℕ → Result ℕ
sign (answered address) = ok address
sign (refused m) = err (internal (text "Invalid private key: " ∷ m))

-- What became of one turn of the loop: no task, a task that ran, or a panic.
pub data Turn : Type 0 where
  idle ran crashed : Turn

-- `retry_task`, where the task has retries left.
unfoldable pub retry_if_left : TaskScheduler → Attempt → ScheduledTask → TaskScheduler
retry_if_left s a task =
    if ltb task.retry_count task.max_retries
    then retry_task s task.id (a.clock 10) (a.clock 11) (a.clock 12) (a.clock 13)
    else s

-- `start_time.elapsed()`.
abbrev pub elapsed : Attempt → ℕ
elapsed a = a.clock 15 - a.clock 14

-- The `match` on the result of `execute_task`.
unfoldable pub conclude :
    TaskScheduler → Attempt → ScheduledTask → Result ExecutionResult → TaskScheduler × Turn
unfolding retry_if_left
conclude s a task (ok r) =
    let done : TaskScheduler =
      complete_task s r.task_id r.success r.tx_hash r.error_message (a.clock 7) (a.clock 8)
        (a.clock 9) in
    (if r.success then done else retry_if_left done a task, ran)
conclude s a task (err e) =
    let done : TaskScheduler =
      complete_task s task.id false none (some (display e)) (a.clock 7) (a.clock 8) (a.clock 9) in
    (retry_if_left done a task, ran)
conclude s a task panic = (s, crashed)

module _ (F : F64) (U : Uint) where
  open F use {of_u64, decimal, mul, lt}

  -- The fields `max_retries` and `retry_delay` are never read.
  pub record TaskExecutor : Type 0 where
    pub task_scheduler : TaskScheduler
    pub wallet_pool : WalletPool F
    pub transaction_tracker : Option TransactionTracker
    pub gas_price_oracle : Option (GasPriceOracle F U)
    pub updates : List StatusUpdate

  -- `get_recommended_gas_price(..).unwrap_or(current)`.
  abbrev pub recommended : GasPriceOracle F U → Result GasPriceInfo → Result GasPriceInfo
  recommended o (ok info) = ok info
  recommended o (err e) = ok o.current_gas_price
  recommended o panic = panic

  -- The fee and the tip to send: the user's, unless the fee is below 80% of the recommended one.
  unfoldable pub choose_fees : Option (GasPriceOracle F U) → TransactionRequest → ℕ → Result (ℕ × ℕ)
  choose_fees none request now = ok (request.max_fee_per_gas, request.max_priority_fee_per_gas)
  choose_fees (some o) request now = do
    info ← recommended o (get_recommended_gas_price F U o (priority_str request.priority) now)
    user_fee ← or_panic (U.to_u64 request.max_fee_per_gas)
    wanted_fee ← or_panic (U.to_u64 info.max_fee_per_gas)
    ok (
        if lt (of_u64 user_fee) (mul (of_u64 wanted_fee) (decimal 8 1))
        then (info.max_fee_per_gas, info.max_priority_fee_per_gas)
        else (request.max_fee_per_gas, request.max_priority_fee_per_gas))

  -- Signing and sending, with the key of the wallet and the nonce that the chain gave for it.
  unfoldable pub send_with_key :
      Attempt → TransactionRequest → ℕ × ℕ → ℕ → ℕ → Option ℕ → Result String
  send_with_key a request fees nonce chain_id none =
      err (internal (text "Wallet private key not available" ∷ []))
  send_with_key a request fees nonce chain_id (some key) = do
    from ← sign (a.signer key)
    gas_limit ← or_panic (U.to_u64 request.gas_limit)
    sent_nonce ← or_panic (U.to_u64 nonce)
    sent_chain_id ← or_panic (U.to_u64 chain_id)
    or_ethereum "Failed to send transaction: " (
        a.send (record {
          from = from;
          to = request.target_contract;
          value = request.value;
          input = request.calldata;
          gas_limit = gas_limit;
          max_fee_per_gas = fees.0;
          max_priority_fee_per_gas = fees.1;
          nonce = sent_nonce;
          chain_id = sent_chain_id;
        }))

  unfoldable pub execute_transaction :
      Option (GasPriceOracle F U) → Attempt → TransactionRequest → WalletInfo F → Result String
  unfolding choose_fees send_with_key
  execute_transaction oracle a request w = do
    nonce ← or_ethereum "Failed to get wallet nonce: " a.wallet_nonce
    chain_id ← or_ethereum "Failed to get chain ID: " a.chain_id
    fees ← choose_fees oracle request (a.clock 0)
    send_with_key a request fees nonce chain_id w.private_key

  abbrev pub track : Option TransactionTracker → ℕ → String → ℕ → ℕ → Option TransactionTracker
  track none task_id tx_hash t u = none
  track (some tracker) task_id tx_hash t u = some (add_transaction tracker task_id tx_hash t u)

  -- What `execute_task` does with the outcome of the transaction.
  unfoldable pub settle :
      TaskExecutor → Attempt → ℕ → ℕ → Result String → TaskExecutor × Result ExecutionResult
  settle x a task_id address (ok tx_hash) = (
    record x {
      wallet_pool = release_wallet F x.wallet_pool address true 0 (a.clock 3) (a.clock 4);
      transaction_tracker = track x.transaction_tracker task_id tx_hash (a.clock 1) (a.clock 2);
      updates =
          (record {
            transaction_id = task_id;
            status = TransactionStatus.submitted;
            tx_hash = some tx_hash;
            block_number = none;
            gas_used = none;
            error_message = none;
          })
          ∷ x.updates;
    },
    ok (record {
      task_id = task_id;
      success = true;
      tx_hash = some tx_hash;
      error_message = none;
      execution_time = elapsed a;
    }),
  )
  settle x a task_id address (err e) = (
    record x {
      wallet_pool = release_wallet F x.wallet_pool address false 0 (a.clock 3) (a.clock 4);
      updates =
          (record {
            transaction_id = task_id;
            status = TransactionStatus.failed;
            tx_hash = none;
            block_number = none;
            gas_used = none;
            error_message = some (display e);
          })
          ∷ x.updates;
    },
    ok (record {
      task_id = task_id;
      success = false;
      tx_hash = none;
      error_message = some (display e);
      execution_time = elapsed a;
    }),
  )
  settle x a task_id address panic = (x, panic)

  -- `execute_task` once the pool has answered.
  unfoldable pub with_wallet :
      TaskExecutor
      → Attempt
      → ScheduledTask
      → Result (Option (WalletInfo F))
      → TaskExecutor × Result ExecutionResult
  unfolding settle
  with_wallet x a task (ok none) = (
    x,
    ok (record {
      task_id = task.id;
      success = false;
      tx_hash = none;
      error_message = some (text "No available wallet in pool" ∷ []);
      execution_time = elapsed a;
    }),
  )
  with_wallet x a task (ok (some w)) =
      settle x a task.id w.address (execute_transaction x.gas_price_oracle a task.request w)
  with_wallet x a task (err e) = (x, err e)
  with_wallet x a task panic = (x, panic)

  unfoldable pub execute_task :
      TaskExecutor → Attempt → ScheduledTask → TaskExecutor × Result ExecutionResult
  unfolding with_wallet
  execute_task x a task =
      let (pool, wallet) = acquire_wallet F x.wallet_pool a.closed (a.clock 5) a.draw (a.clock 6) in
      with_wallet (record x { wallet_pool = pool }) a task wallet

  -- One turn of `start_execution_loop` with the task that the scheduler gave.
  unfoldable pub turn_with : TaskExecutor → Attempt → ScheduledTask → TaskExecutor × Turn
  unfolding conclude
  turn_with x a task =
      let (x', result) = execute_task x a task in
      let (s, turn) = conclude x'.task_scheduler a task result in
      (record x' { task_scheduler = s }, turn)

  unfoldable pub turn_of :
      TaskExecutor → Attempt → TaskScheduler × Result (Option ScheduledTask) → TaskExecutor × Turn
  unfolding turn_with
  turn_of x a (s, ok (some task)) = turn_with (record x { task_scheduler = s }) a task
  turn_of x a (s, ok none) = (x, idle)
  turn_of x a (s, err e) = (x, idle)
  turn_of x a (s, panic) = (x, crashed)

  -- One turn of `start_execution_loop`.
  unfoldable pub turn : TaskExecutor → Attempt → TaskExecutor × Turn
  unfolding turn_of
  turn x a = turn_of x a (get_next_task x.task_scheduler)

  abbrev pub run_on : TaskExecutor × Turn → (TaskExecutor → TaskExecutor) → TaskExecutor
  run_on (x, idle) rest = rest x
  run_on (x, ran) rest = rest x
  run_on (x, crashed) rest = x

  -- The loop over the given attempts. A panic ends it.
  unfoldable pub run : TaskExecutor → List Attempt → TaskExecutor
  unfolding turn
  run x [] = x
  run x (a ∷ later) = run_on (turn x a) (λ x'. run x' later)
