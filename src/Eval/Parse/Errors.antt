-- ===== src/Eval/Parse/Errors.antt =====
-- The errors of crates/flaps-eval/src/error.rs, and the paths that they carry.
use Prim.Native.String.{◌++◌}
use flaps.Prelude.{ℕ, String, Result, err}
use flaps.Prelude.Text.{show_nat}

-- `json` is an error of the crate `serde_json`. `out_of_fuel` has no counterpart in the program:
-- the parser gives `reference` fuel for every name that may be resolved.
pub data ParseError : Type 0 where
  json out_of_fuel : ParseError
  invalid_document : String → String → ParseError
  unknown_operator : String → String → ParseError
  invalid_arguments : String → String → String → ParseError
  mixed_variant_types : String → ParseError
  unknown_evaluator : String → String → ParseError
  evaluator_cycle : String → ParseError

abbrev pub Parsed {ℓ} : Type ℓ → Type ℓ
Parsed A = Result ParseError A

abbrev pub invalid {ℓ} : {A : Type ℓ} → String → String → Parsed A
invalid path reason = err (invalid_document path reason)

abbrev pub bad_args {ℓ} : {A : Type ℓ} → String → String → String → Parsed A
bad_args path operator reason = err (invalid_arguments path operator reason)

-- `{path}.{name}` and `{path}[{index}]`
abbrev pub at_name : String → String → String
at_name path name = path ++ ("." ++ name)

abbrev pub at_index : String → ℕ → String
at_index path i = path ++ ("[" ++ (show_nat i ++ "]"))
