-- ===== src/Lib.antt =====
-- A model of the express402 relayer, which takes signed transaction requests, queues them, sends them
-- to a chain from a pool of its own wallets, and follows them until they are confirmed.
--
-- The parts and the files that model them:
--   Types: src/types, the requests, wallets and errors that the parts exchange. Result has a third
--     case, panic, for code that panics; Answer is what code outside the repository answers.
--   Utils/Gas: src/utils/gas.rs, GasPriceOracle: fetch_gas_price computes a price from the latest
--     block and stores it, get_recommended_gas_price scales the stored price by a priority.
--   Utils/Validation: src/utils/validation.rs, TransactionValidator: the checks on the parameters of a
--     request, and in Validation/Texts on the texts that they are read from.
--   Utils/Retry: src/utils/retry.rs, RetryHelper: retry_with_backoff and retry, the delays and the
--     texts of the errors that are retried, and ErrorContext.
--   Wallet/Pool: src/wallet/pool.rs, WalletPool: add_wallet, remove_wallet, get_next_wallet with its
--     four strategies, acquire_wallet and release_wallet.
--   Wallet/Rotation: src/wallet/rotation.rs, the rotation manager: should_rotate, rotate_wallets
--     with its strategies, force_rotation and the statistics of each wallet.
--   Wallet/Monitor: src/wallet/monitor.rs, WalletMonitor: check_wallet_health and the alerts.
--   Queue/Scheduler: src/queue/scheduler.rs, TaskScheduler: schedule_task, get_next_task,
--     start_processing, complete_task, retry_task, cancel_task, clear_completed_tasks and the queries.
--     Queue/Heap is the binary heap that it keeps its tasks in.
--   Queue/Tracker: src/queue/tracker.rs, TransactionTracker: add_transaction, check_transaction and
--     process_pending_transactions, one round of polling.
--   Queue/Executor: src/queue/executor.rs, TaskExecutor: the loop takes a task from the scheduler,
--     acquires a wallet of the pool, lets the oracle choose the fees, sends the transaction, hands it
--     to the tracker, releases the wallet and completes the task.
--   Queue/Concurrency: src/queue/concurrency.rs, ConcurrencyController: acquire_permit, the
--     drop of a permit, release_permit, cleanup_expired_tasks, adjust_concurrency_limits and the
--     statistics. Concurrency/Steps has the interleavings of its callers.
--   Queue/Priority: src/queue/priority.rs, PriorityManager with its weights and multipliers, and
--     PriorityCalculator with the history of each priority.
--   Security/Replay: src/security/replay.rs, ReplayProtection: check_and_record, is_nonce_used,
--     get_next_nonce and the ticks of its cleanup task.
--   Security/Signature: src/security/signature.rs, SignatureVerifier: the age, the nonce and the form of
--     a signature.
--   Security/Balance: src/security/balance.rs, BalanceChecker with its cache, and BalanceMonitor.
--   Api/Auth: src/api/auth.rs, AuthManager with the API keys, and RateLimiter: check_rate_limit.
--   Api/Middleware and Api/Breaker: src/api/middleware.rs, MiddlewareManager with record_request,
--     record_error and get_stats, the middlewares, and CircuitBreaker: call, handle_failure and the tasks
--     that it spawns. Breaker/Steps has the interleavings of its calls.
--   Api/Gateway: src/api/gateway.rs, submit_transaction, which reads a payload with
--     Utils/Validation/Texts, verifies it with Security/Signature and Security/Replay, looks at
--     Wallet/Pool and hands it to Queue/Scheduler; cancel_transaction; and in Gateway/Batch
--     submit_batch_transactions with process_single_transaction. Api/Health is its health_check.
--   Cache/Memory: src/cache/memory.rs, MemoryCache: get, set with its eviction, delete, clear and the
--     cleanup.
--   Common: lists, maps, a stable sort, texts as code points, tests, and the parameters that stand for
--     f64, for durations and for the conversions of U256.
--   The files named Tests apply the theorems to concrete states.
--
-- A method takes the state and returns the new one beside its result. The state is a record with
-- the fields of the struct, and a map is an association list. Each reading of the clock, each draw
-- of the random generator and each answer of the chain, of the signer or of the database is an
-- argument. A lock is held for one atomic step; Queue/Scheduler/Race, Queue/Concurrency/Steps and
-- Api/Breaker/Steps split an operation where the code releases its lock in between. Machine
-- integers wrap at their width. Floating-point numbers are an arbitrary structure with the
-- operations that the code uses, so that the theorems hold of any rounding. The loops are
-- structural recursions over the lists that the code walks, and the execution loop runs over a list
-- of attempts, each with what the world answers during it, so that no fuel is needed.
--
-- Not modelled: log output and its arguments; the routing and the handlers of the gateway that only
-- report, as they put together what the modelled queries answer; the hashes of EIP-712, which the
-- verification does not compute; the Redis and persistent caches and the SQL of the database, whose answers
-- are arguments; settings, services and start-up. The parsers of the libraries are parameters. Some
-- statistics that only read the state are left out. The code waits on semaphores whose permits it drops
-- on return; a call is modelled from the moment that the wait ends.
pub mod Common
pub mod Types
pub mod Utils
pub mod Wallet
pub mod Security
pub mod Api
pub mod Cache
pub mod Queue
