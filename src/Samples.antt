-- ===== src/Samples.antt =====
-- Concrete runs of the components.
pub mod Sessions
pub mod Limiters
pub mod Hearing
pub mod Addresses
pub mod Runs
pub mod Clients
pub mod Voices
pub mod Icons
pub mod Talk
pub mod Requests
