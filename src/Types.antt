-- ===== src/Types.antt =====
-- src/types: the data that the components exchange.
pub mod Error
pub mod Transaction
pub mod Samples
pub mod Wallet
