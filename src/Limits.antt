-- ===== src/Limits.antt =====
-- The in-memory limiters of server/src/rate-limit.ts: token buckets, the connection counter, the
-- rejection counters, and the table of limits.
pub mod Bucket
pub mod Concurrency
pub mod Rejections
