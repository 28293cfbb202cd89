-- ===== src/Wallet.antt =====
-- src/wallet: the pool of the relayer's own wallets, their rotation and their monitoring.
pub mod Pool
pub mod Rotation
pub mod Monitor
