-- ===== src/Cache.antt =====
-- src/cache: the cache in memory.
pub mod Memory
