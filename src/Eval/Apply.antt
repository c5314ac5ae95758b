-- ===== src/Eval/Apply.antt =====
-- `apply` of crates/flaps-eval/src/logic.rs: a rule, reduced against the data in scope. Each operator is
-- a function of its own over the operands, which stand as functions of the data.
pub mod Resolved
use flaps.Prelude.{Bool, not, none, some, List, [], ◌∷◌, ok, err, ◌>>=◌}
use flaps.Json
use flaps.Json.{bool}
use flaps.Numbers.{Numbers}
use flaps.Versions.{Versions}
use flaps.Eval.Targeting.{Rule, Rules, nil, cons}
use flaps.Eval.Coerce.{
  JsonValue, truthy, literal_value, number_value, to_number, loose_eq, strict_eq, lt, lte,
}
use flaps.Eval.Errors.{Evaluated, Evaluator, unsupported_operation, apply_all}
use flaps.Eval.Logic.{
  eval_var, eval_missing, eval_missing_some, eval_if, eval_and, eval_or, eval_chain,
}
use flaps.Eval.Arithmetic.{eval_add, eval_sub, eval_mul, eval_extreme, eval_cat, eval_substr}
use flaps.Eval.Collections.{
  eval_in, eval_merge, eval_map, eval_filter, eval_reduce, eval_all, eval_some,
}
use flaps.Eval.Custom.{prefix, suffix, eval_string_comparison, eval_sem_ver}
use flaps.Eval.Fractional.{eval_fractional}

module _ ⦃num : Numbers⦄ where
  -- Both operands, and then a test of their values.
  unfoldable pub compare_values :
      (JsonValue → JsonValue → Bool) → Evaluator → Evaluator → JsonValue → Evaluated JsonValue
  compare_values test left right d = do l ← left d; r ← right d; ok (bool (test l r))

  abbrev differ : (JsonValue → JsonValue → Bool) → JsonValue → JsonValue → Bool
  differ test l r = not (test l r)

  unfoldable pub arithmetic_values :
      (num.F64 → num.F64 → num.F64) → Evaluator → Evaluator → JsonValue → Evaluated JsonValue
  arithmetic_values op left right d = do
    l ← left d
    r ← right d
    ok (number_value (op (to_number l) (to_number r)))

  unfoldable pub eval_array : List Evaluator → JsonValue → Evaluated JsonValue
  unfolding apply_all
  eval_array rs d = do vs ← apply_all rs d; ok (Json.array (Json.of_items vs))

  unfoldable pub eval_missing_names : List Evaluator → JsonValue → Evaluated JsonValue
  eval_missing_names rs d = do found ← eval_missing rs d; ok (Json.array (Json.of_items found.1))

  unfoldable pub negate : (JsonValue → Bool) → Evaluator → JsonValue → Evaluated JsonValue
  negate test operand d = do v ← operand d; ok (bool (test v))

  unfoldable pub none_of : Evaluator → Evaluator → JsonValue → Evaluated JsonValue
  none_of source test d = do v ← eval_some source test d; ok (bool (not (truthy v)))

module _ ⦃num : Numbers⦄ ⦃ver : Versions⦄ where
  unfoldable mutual
    unfolding compare_values arithmetic_values eval_array eval_missing_names negate none_of

    pub apply : Rule num.F64 → JsonValue → Evaluated JsonValue
    apply (Rule.literal l) d = ok (literal_value l)
    apply (Rule.array rs) d = eval_array (operands rs) d
    apply (Rule.var path default) d = ok (eval_var path default d)
    apply (Rule.missing rs) d = eval_missing_names (operands rs) d
    apply (Rule.missing_some n rs) d = eval_missing_some n (operands rs) d
    apply (Rule.if_chain rs) d = eval_if (operands rs) d
    apply (Rule.and rs) d = eval_and (operands rs) d
    apply (Rule.or rs) d = eval_or (operands rs) d
    apply (Rule.not r) d = negate (λ v. not (truthy v)) (apply r) d
    apply (Rule.truthy r) d = negate truthy (apply r) d
    apply (Rule.eq a b) d = compare_values loose_eq (apply a) (apply b) d
    apply (Rule.strict_eq a b) d = compare_values strict_eq (apply a) (apply b) d
    apply (Rule.neq a b) d = compare_values (differ loose_eq) (apply a) (apply b) d
    apply (Rule.strict_neq a b) d = compare_values (differ strict_eq) (apply a) (apply b) d
    apply (Rule.gt a b) d = compare_values lt (apply b) (apply a) d
    apply (Rule.gte a b) d = compare_values lte (apply b) (apply a) d
    apply (Rule.lt rs) d = eval_chain lt (operands rs) d
    apply (Rule.lte rs) d = eval_chain lte (operands rs) d
    apply (Rule.add rs) d = eval_add (operands rs) d
    apply (Rule.sub rs) d = eval_sub (operands rs) d
    apply (Rule.mul rs) d = eval_mul (operands rs) d
    apply (Rule.div a b) d = arithmetic_values num.div (apply a) (apply b) d
    apply (Rule.mod_rule a b) d = arithmetic_values num.rem (apply a) (apply b) d
    apply (Rule.min rs) d = eval_extreme num.min (operands rs) d
    apply (Rule.max rs) d = eval_extreme num.max (operands rs) d
    apply (Rule.cat rs) d = eval_cat (operands rs) d
    apply (Rule.substr rs) d = eval_substr (operands rs) d
    apply (Rule.in_rule a b) d = eval_in (apply a) (apply b) d
    apply (Rule.merge rs) d = eval_merge (operands rs) d
    apply (Rule.map a b) d = eval_map (apply a) (apply b) d
    apply (Rule.filter a b) d = eval_filter (apply a) (apply b) d
    apply (Rule.reduce a b c) d = eval_reduce (apply a) (apply b) (apply c) d
    apply (Rule.all a b) d = eval_all (apply a) (apply b) d
    apply (Rule.none a b) d = none_of (apply a) (apply b) d
    apply (Rule.some a b) d = eval_some (apply a) (apply b) d
    apply (Rule.starts_with a b) d = eval_string_comparison prefix (apply a) (apply b) d
    apply (Rule.ends_with a b) d = eval_string_comparison suffix (apply a) (apply b) d
    apply (Rule.sem_ver a op b) d = eval_sem_ver (apply a) op (apply b) d
    apply (Rule.fractional bs) d = eval_fractional none bs d
    apply (Rule.fractional_by a bs) d = eval_fractional (some (apply a)) bs d
    apply (Rule.ref name) d = err (unsupported_operation "$ref")

    -- A slice of rules, each ready to run.
    pub operands : Rules num.F64 → List Evaluator
    operands nil = []
    operands (cons r rs) = apply r ∷ operands rs
