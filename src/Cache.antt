-- ===== src/Cache.antt =====
-- dino/cache/redis.py: the in-memory cache in front of Redis.
pub mod Memory
pub mod Redis
