-- ===== src/Client.antt =====
-- The crate `flaps-client` (crates/flaps-client/src).
pub mod Backoff
pub mod Sse
pub mod Sync
pub mod Supervisor
pub mod Provider
