-- ===== src/Queue/Executor/Tests.antt =====
-- The theorems about the execution loop at a concrete executor (src/queue/executor.rs).
use express402_relayer.Common.{
  ℕ, ◌⊎◌, ◌==◌, ◌||◌, ◌+◌, ◌≡◌, ◌≢◌, any, refl, true, none, some, inr, List, [], ◌∷◌, arith,
}
use express402_relayer.Common.Samples.{fixed, uint}
use express402_relayer.Types.Error.{answered, refused, text, panic}
use express402_relayer.Types.Transaction.{low, critical}
use express402_relayer.Types.Samples.{request}
use express402_relayer.Wallet.Pool.{WalletPool, round_robin}
use express402_relayer.Queue.Heap
use express402_relayer.Queue.Scheduler.{ScheduledTask, cmp}
use express402_relayer.Queue.Executor.{TaskExecutor, Attempt, execute_task, turn, ran, crashed, run}
use express402_relayer.Queue.Executor.Iteration.{is_recorded, turn-Ended}
use express402_relayer.Queue.Executor.Drain.{Ready, run-drains}

abbrev pool : WalletPool fixed
pool = record {
  wallets =
      (record {
        address = 1;
        private_key = some 11;
        balance = 0;
        nonce = 0;
        is_active = true;
        last_used = 5;
        success_rate = 1000;
        total_transactions = 0;
        failed_transactions = 0;
      })
      ∷ [];
  active_wallets = 1 ∷ [];
  wallet_usage =
      (
        1,
        record {
          address = 1;
          total_transactions = 0;
          successful_transactions = 0;
          failed_transactions = 0;
          last_used = 5;
          average_gas_used = 0;
          total_gas_used = 0;
        },
      )
      ∷ [];
  config = record {
    min_wallets = 1;
    max_wallets = 5;
    balance_threshold = 0;
    rotation_interval = 60;
    health_check_interval = 60;
    max_concurrent_transactions = 4;
    min_balance = 0;
    transaction_timeout = 60;
    retry_attempts = 3;
    retry_delay = 1;
  };
  rotation_strategy = round_robin;
  permits = 4;
}

abbrev first_task : ScheduledTask
first_task = record {
  id = 1;
  request = request 1 low;
  priority = 1;
  created_at = 10;
  scheduled_at = 10;
  retry_count = 0;
  max_retries = 3;
}

abbrev second_task : ScheduledTask
second_task = record {
  id = 2;
  request = request 2 critical;
  priority = 4;
  created_at = 20;
  scheduled_at = 20;
  retry_count = 0;
  max_retries = 3;
}

abbrev executor : List ScheduledTask → TaskExecutor fixed uint
executor waiting = record {
  task_scheduler = record {
    priority_queue = waiting;
    processing_queue = [];
    completed_tasks = [];
    failed_tasks = [];
    permits = 4;
    max_queue_size = 10;
    processing_timeout = 60;
  };
  wallet_pool = pool;
  transaction_tracker = none;
  gas_price_oracle = none;
  updates = [];
}

-- A chain that refuses each transaction.
abbrev attempt : Attempt
attempt = record {
  closed = none;
  draw = 0;
  wallet_nonce = answered 3;
  chain_id = answered 56;
  signer = λ key. answered 1;
  send = λ r. refused (text "nonce too low" ∷ []);
  clock = λ n. 100 + n;
}

popped_first : Heap.pop cmp (second_task ∷ first_task ∷ []) ≡ some (first_task, second_task ∷ [])
unfolding Heap.pop Heap.prefer cmp
popped_first = refl

abbrev waiting_executor : TaskExecutor fixed uint
waiting_executor = executor (second_task ∷ first_task ∷ [])

-- The failed task is recorded, and not put back.
turn-Ended_example :
    ((turn fixed uint waiting_executor attempt).0.task_scheduler.priority_queue ≡ second_task ∷ [])
    × ((turn fixed uint waiting_executor attempt).0.task_scheduler.processing_queue ≡ [])
    × ((((execute_task fixed uint (executor (second_task ∷ [])) attempt first_task).1 ≢ panic)
          × ((turn fixed uint waiting_executor attempt).1 ≡ ran)
          × ((j : ℕ)
              → is_recorded (turn fixed uint waiting_executor attempt).0.task_scheduler j
                ≡ (1 == j || is_recorded waiting_executor.task_scheduler j)))
        ⊎ (((execute_task fixed uint (executor (second_task ∷ [])) attempt first_task).1 ≡ panic)
            × ((turn fixed uint waiting_executor attempt).1 ≡ crashed)
            × ((j : ℕ)
                → is_recorded (turn fixed uint waiting_executor attempt).0.task_scheduler j
                  ≡ is_recorded waiting_executor.task_scheduler j)))
turn-Ended_example =
    turn-Ended fixed uint waiting_executor attempt first_task (second_task ∷ []) refl popped_first

run-drains_example :
    ((run fixed uint waiting_executor (attempt ∷ attempt ∷ [])).task_scheduler.priority_queue ≡ [])
    × (is_recorded (run fixed uint waiting_executor (attempt ∷ attempt ∷ [])).task_scheduler 2
        ≡ true)
unfolding any
run-drains_example =
    run-drains fixed uint waiting_executor (attempt ∷ attempt ∷ []) 2 ready (omega arith)
  where
    ready : Ready fixed uint waiting_executor (attempt ∷ attempt ∷ [])
    ready = record {
      none_running = refl;
      fits = ((omega arith, omega arith), ((omega arith, omega arith), tt));
      fits_oracle = tt;
      draws = (inr (omega arith), (inr (omega arith), tt));
      answers = ((omega arith, omega arith), ((omega arith, omega arith), tt));
    }
