-- ===== src/Redis.antt =====
-- crates/neon-redis: the distributed lock of redlock.rs over the interface of the Redis server.
pub mod Lock
pub mod Kit
mod Tests
