-- ===== src/Eval/Parse.antt =====
-- The parser of crates/flaps-eval/src/parse.rs.
pub mod Errors
pub mod Rule
pub mod Values
pub mod Document
pub mod Ensured
