-- ===== src/Tests.antt =====
-- Runs of the model at concrete inputs, and each theorem at one.
pub mod Roles
pub mod Rooms
pub mod Acls
pub mod Patterns
pub mod Clocks
pub mod Presence
pub mod Joins
pub mod Sessions
pub mod Storage
pub mod Requests
pub mod CacheRedis
pub mod Authority
