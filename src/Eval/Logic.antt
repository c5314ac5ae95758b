-- ===== src/Eval/Logic.antt =====
-- The boolean and data operators of crates/flaps-eval/src/logic.rs, over operands that are ready to run.
use flaps.Prelude.{
  ℕ, ◌-◌, String, Bool, true, false, not, Option, none, some, List, [], ◌∷◌, map, ok, ◌>>=◌, leb,
  length, if◌then◌else◌,
}
use flaps.Prelude.Text
use flaps.Json
use flaps.Json.{null, bool, number, string, array, object}
use flaps.Numbers.{Numbers}
use flaps.Eval.Targeting.{Literal}
use flaps.Eval.Coerce.{JsonValue, truthy, to_string, literal_value, lookup}
use flaps.Eval.Errors.{Evaluated, Evaluator, apply_all}

module _ ⦃num : Numbers⦄ where
  default_value : Option (Literal num.F64) → JsonValue
  unfolding literal_value
  default_value none = null
  default_value (some l) = literal_value l

  found_or : Option JsonValue → JsonValue → JsonValue
  found_or none d = d
  found_or (some null) d = d
  found_or (some v) d = v

  unfoldable pub eval_var : String → Option (Literal num.F64) → JsonValue → JsonValue
  unfolding default_value found_or
  eval_var path default d =
      if Text.is_empty path then d else found_or (lookup path d) (default_value default)

  is_absent : Option JsonValue → Bool
  is_absent none = true
  is_absent (some null) = true
  is_absent (some (string s)) = Text.is_empty s
  is_absent (some v) = false

  absent_names : List String → JsonValue → List JsonValue
  unfolding is_absent
  absent_names [] d = []
  absent_names (name ∷ names) d =
      let rest = absent_names names d in
      if is_absent (lookup name d) then string name ∷ rest else rest

  -- The operands, or the elements of the first one if that is an array.
  resolved_keys : List JsonValue → List JsonValue
  resolved_keys (array vs ∷ rest) = Json.items vs
  resolved_keys vs = vs

  unfoldable pub eval_missing :
      List Evaluator → JsonValue → Evaluated (List JsonValue × List JsonValue)
  unfolding absent_names resolved_keys apply_all
  eval_missing keys d = do
    evaluated ← apply_all keys d
    let resolved = resolved_keys evaluated
    ok (resolved, absent_names (map to_string resolved) d)

  unfoldable pub eval_missing_some : ℕ → List Evaluator → JsonValue → Evaluated JsonValue
  unfolding eval_missing
  eval_missing_some minimum keys d = do
    found ← eval_missing keys d
    let present = length found.0 - length found.1
    if leb minimum present then ok (array Json.nil) else ok (array (Json.of_items found.1))

  -- Conditions and outcomes in pairs, and an optional last one.
  unfoldable pub eval_if : List Evaluator → JsonValue → Evaluated JsonValue
  eval_if [] d = ok null
  eval_if (fallback ∷ []) d = fallback d
  eval_if (condition ∷ outcome ∷ rest) d = do
    c ← condition d
    let others = eval_if rest d
    if truthy c then outcome d else others

  unfoldable pub and_from : JsonValue → List Evaluator → JsonValue → Evaluated JsonValue
  and_from last [] d = ok last
  and_from last (operand ∷ rest) d = do
    v ← operand d
    let others = and_from v rest d
    if not (truthy v) then ok v else others

  unfoldable pub eval_and : List Evaluator → JsonValue → Evaluated JsonValue
  unfolding and_from
  eval_and = and_from null

  unfoldable pub or_from : JsonValue → List Evaluator → JsonValue → Evaluated JsonValue
  or_from last [] d = ok last
  or_from last (operand ∷ rest) d = do
    v ← operand d
    let others = or_from v rest d
    if truthy v then ok v else others

  unfoldable pub eval_or : List Evaluator → JsonValue → Evaluated JsonValue
  unfolding or_from
  eval_or = or_from null

  unfoldable pub chain_from :
      (JsonValue → JsonValue → Bool) → JsonValue → List Evaluator → JsonValue → Evaluated JsonValue
  chain_from ordered previous [] d = ok (bool true)
  chain_from ordered previous (operand ∷ rest) d = do
    next ← operand d
    let others = chain_from ordered next rest d
    if not (ordered previous next) then ok (bool false) else others

  unfoldable pub eval_chain :
      (JsonValue → JsonValue → Bool) → List Evaluator → JsonValue → Evaluated JsonValue
  unfolding chain_from
  eval_chain ordered [] d = ok (bool false)
  eval_chain ordered (first ∷ rest) d = do previous ← first d; chain_from ordered previous rest d
