-- ===== src/Volumes.antt =====
-- server/src/volumes.ts: at what volume a player hears the others of its room.
pub mod Distance
pub mod Curve
pub mod Request
pub mod Entries
pub mod Tiered
pub mod FromRoom
