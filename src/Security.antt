-- ===== src/Security.antt =====
-- src/security: the checks on a request before it is queued.
pub mod Replay
pub mod Balance
pub mod Signature
