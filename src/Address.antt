-- ===== src/Address.antt =====
-- The client address of server/src/rate-limit.ts: which text the limiters are keyed by. `isIP` of
-- node:net is a parameter.
pub mod Chars
pub mod Ip
pub mod Nets
pub mod Origin
pub mod Trust
