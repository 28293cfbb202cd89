-- ===== src/Api.antt =====
-- src/api: the keys and rate limits of the gateway, its middlewares and its circuit breaker.
pub mod Auth
pub mod Middleware
pub mod Breaker
pub mod Gateway
pub mod Health
