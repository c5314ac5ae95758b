-- ===== src/Domain.antt =====
-- The crate `flaps-domain` (crates/flaps-domain/src).
pub mod Errors
pub mod Key
pub mod Variant
pub mod Rollout
pub mod Segment
pub mod SdkKey
pub mod Records
