-- ===== src/Queue.antt =====
-- src/queue: the scheduler of relayed transactions, the executor that runs them and the tracker that
-- follows them on the chain.
pub mod Heap
pub mod Scheduler
pub mod Tracker
pub mod Executor
pub mod Concurrency
pub mod Priority
