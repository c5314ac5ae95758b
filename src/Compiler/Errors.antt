-- ===== src/Compiler/Errors.antt =====
-- crates/flaps-compiler/src/error.rs. Where the source keeps the text of an error of another crate or of
-- the evaluator, that error stands here, or nothing.
use flaps.Prelude.{ℕ, String, Result}
use flaps.Eval.Parse.Errors.{ParseError}

pub data CompileError : Type 0 where
  unknown_segment : String → String → CompileError
  unknown_variant : String → String → CompileError
  object_variant_not_object : String → String → CompileError
  predicate_arity : String → String → ℕ → CompileError
  non_scalar_predicate_value : String → CompileError
  evaluator_rejected : String → ParseError → CompileError
  variant_type_mismatch : String → String → CompileError
  invalid_variant_value : String → CompileError

abbrev pub Compiled {ℓ} : Type ℓ → Type ℓ
Compiled A = Result CompileError A
