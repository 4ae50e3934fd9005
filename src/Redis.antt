-- ===== src/Redis.antt =====
-- RedisQueue of internal/state/redis_queue.go.
pub mod Wire
pub mod Queue
pub mod Server
pub mod Kept
pub mod Runs
pub mod Nacks
pub mod Expiry
