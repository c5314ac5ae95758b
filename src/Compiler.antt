-- ===== src/Compiler.antt =====
-- The crate `flaps-compiler` (crates/flaps-compiler/src).
pub mod Errors
pub mod Segment
pub mod Flag
pub mod Environment
pub mod Meaning
