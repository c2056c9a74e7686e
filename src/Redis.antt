-- ===== src/Redis.antt =====
-- internal/redisclient: batched writes to Redis, and the repair of old keys.
pub mod Batch
pub mod Normalize
mod Flatten
mod Merge
mod Tests
