-- ===== src/Store.antt =====
-- apps/backend/src/redis/client.ts and apps/backend/src/redis/lock.ts: the Redis client with its
-- store in memory, and the lock on top of it.
pub mod Memory
pub mod Flags
pub mod Client
pub mod Lock
pub mod Laws
pub mod Exclusion
pub mod Spec
pub mod Outage
