-- ===== src/Eval.antt =====
-- The crate `flaps-eval` (crates/flaps-eval/src).
pub mod Targeting
pub mod Coerce
pub mod Errors
pub mod Logic
pub mod Arithmetic
pub mod Collections
pub mod Custom
pub mod Murmur
pub mod Fractional
pub mod Apply
pub mod Model
pub mod Evaluate
pub mod Parse
pub mod Serialize
