-- ===== src/Eval/Errors.antt =====
-- The errors of crates/flaps-eval/src/eval.rs, and the shape of a rule that is ready to run.
use flaps.Prelude.{String, Result, List, [], ◌∷◌, ◌>>=◌, ok}
use flaps.Numbers.{Numbers}
use flaps.Json.{Value}
use flaps.Eval.Coerce.{JsonValue}

pub data EvaluationError (N : Type 0) : Type 0 where
  flag_not_found : String → EvaluationError N
  invalid_variant : String → Value N → EvaluationError N
  unsupported_operation : String → EvaluationError N

abbrev pub Evaluated : ⦃num : Numbers⦄ → Type 0 → Type 0
Evaluated ⦃num⦄ A = Result (EvaluationError num.Number) A

-- A rule applied to all but its data: `|data| apply(rule, data)`.
abbrev pub Evaluator : ⦃num : Numbers⦄ → Type 0
Evaluator = JsonValue → Evaluated JsonValue

module _ ⦃num : Numbers⦄ where
  -- `apply_all`: the operands in turn, up to the first error.
  unfoldable pub apply_all : List Evaluator → JsonValue → Evaluated (List JsonValue)
  apply_all [] d = ok []
  apply_all (r ∷ rs) d = do v ← r d; vs ← apply_all rs d; ok (v ∷ vs)
