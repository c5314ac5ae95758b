-- ===== src/Server.antt =====
-- The crate `flaps-server` (crates/flaps-server/src).
pub mod SseQuota
pub mod RateLimit
pub mod ApiErrors
pub mod Preauth
pub mod Login
pub mod SdkAuth
pub mod Sync
pub mod Recompile
