-- ===== src/Utils.antt =====
-- src/utils: gas prices, the validation of requests, and retries.
pub mod Gas
pub mod Validation
pub mod Retry
