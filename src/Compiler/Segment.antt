-- ===== src/Compiler/Segment.antt =====
-- crates/flaps-compiler/src/segment_compiler.rs: segments to rules.
use flaps.Prelude.{String, Option, none, some, List, [], ◌∷◌, ok, err, ◌>>=◌, length}
use flaps.Json.{null, bool, number, string, array, object}
use flaps.Numbers.{Numbers}
use flaps.Eval.Targeting
use flaps.Eval.Targeting.{Rule, Rules, Literal, SemVerOp}
use flaps.Eval.Coerce.{JsonValue}
use flaps.Domain.Segment.{
  MatchOperator, Predicate, SegmentMatch, SegmentMatches, nil, cons, equals, not_equals, in_list,
  not_in_list, starts_with, ends_with, contains, sem_ver_eq, sem_ver_neq, sem_ver_lt, sem_ver_lte,
  sem_ver_gt, sem_ver_gte, sem_ver_caret, sem_ver_tilde,
}
use flaps.Compiler.Errors.{Compiled, predicate_arity, non_scalar_predicate_value}

-- `format!("{:?}", operator)`
unfoldable pub debug_name : MatchOperator → String
debug_name equals = "Equals"
debug_name not_equals = "NotEquals"
debug_name in_list = "In"
debug_name not_in_list = "NotIn"
debug_name starts_with = "StartsWith"
debug_name ends_with = "EndsWith"
debug_name contains = "Contains"
debug_name sem_ver_eq = "SemVerEq"
debug_name sem_ver_neq = "SemVerNeq"
debug_name sem_ver_lt = "SemVerLt"
debug_name sem_ver_lte = "SemVerLte"
debug_name sem_ver_gt = "SemVerGt"
debug_name sem_ver_gte = "SemVerGte"
debug_name sem_ver_caret = "SemVerCaret"
debug_name sem_ver_tilde = "SemVerTilde"

module _ ⦃num : Numbers⦄ where
  unfoldable pub or_zero : Option num.F64 → num.F64
  or_zero none = num.of_nat 0
  or_zero (some x) = x

  unfoldable pub json_to_literal : String → JsonValue → Compiled (Literal num.F64)
  unfolding or_zero
  json_to_literal operator null = ok Literal.null
  json_to_literal operator (bool b) = ok (Literal.bool b)
  json_to_literal operator (number n) = ok (Literal.number (or_zero (num.as_f64 n)))
  json_to_literal operator (string s) = ok (Literal.string s)
  json_to_literal operator (array vs) = err (non_scalar_predicate_value operator)
  json_to_literal operator (object fs) = err (non_scalar_predicate_value operator)

  unfoldable pub literal_rules : String → List JsonValue → Compiled (Rules num.F64)
  unfolding json_to_literal
  literal_rules operator [] = ok Targeting.nil
  literal_rules operator (v ∷ vs) = do
    l ← json_to_literal operator v
    rs ← literal_rules operator vs
    ok (Targeting.cons (Rule.literal l) rs)

  -- `require_arity(values, 1)`, and then the literal of the value.
  unfoldable pub one_literal : String → List JsonValue → Compiled (Literal num.F64)
  unfolding json_to_literal
  one_literal operator (v ∷ []) = json_to_literal operator v
  one_literal operator values = err (predicate_arity operator "1" (length values))

  -- `require_arity_min(values, 1)`, and then the array of the literals.
  unfoldable pub some_literals : String → List JsonValue → Compiled (Rule num.F64)
  unfolding literal_rules
  some_literals operator [] = err (predicate_arity operator ">=1" 0)
  some_literals operator (v ∷ vs) = do rs ← literal_rules operator (v ∷ vs); ok (Rule.array rs)

  unfoldable pub compile_semver : Predicate num.Number → SemVerOp → Compiled (Rule num.F64)
  unfolding one_literal debug_name
  compile_semver p op = do
    l ← one_literal (debug_name p.operator) p.values
    ok (Rule.sem_ver (Rule.var p.attribute none) op (Rule.literal l))

  unfoldable pub compile_with : MatchOperator → Predicate num.Number → Compiled (Rule num.F64)
  unfolding one_literal some_literals compile_semver
  compile_with equals p = do
    l ← one_literal "Equals" p.values
    ok (Rule.eq (Rule.var p.attribute none) (Rule.literal l))
  compile_with not_equals p = do
    l ← one_literal "NotEquals" p.values
    ok (Rule.neq (Rule.var p.attribute none) (Rule.literal l))
  compile_with starts_with p = do
    l ← one_literal "StartsWith" p.values
    ok (Rule.starts_with (Rule.var p.attribute none) (Rule.literal l))
  compile_with ends_with p = do
    l ← one_literal "EndsWith" p.values
    ok (Rule.ends_with (Rule.var p.attribute none) (Rule.literal l))
  compile_with contains p = do
    l ← one_literal "Contains" p.values
    ok (Rule.in_rule (Rule.literal l) (Rule.var p.attribute none))
  compile_with in_list p = do
    rs ← some_literals "In" p.values
    ok (Rule.in_rule (Rule.var p.attribute none) rs)
  compile_with not_in_list p = do
    rs ← some_literals "NotIn" p.values
    ok (Rule.not (Rule.in_rule (Rule.var p.attribute none) rs))
  compile_with sem_ver_eq p = compile_semver p SemVerOp.eq
  compile_with sem_ver_neq p = compile_semver p SemVerOp.neq
  compile_with sem_ver_lt p = compile_semver p SemVerOp.lt
  compile_with sem_ver_lte p = compile_semver p SemVerOp.lte
  compile_with sem_ver_gt p = compile_semver p SemVerOp.gt
  compile_with sem_ver_gte p = compile_semver p SemVerOp.gte
  compile_with sem_ver_caret p = compile_semver p SemVerOp.caret_match
  compile_with sem_ver_tilde p = compile_semver p SemVerOp.tilde_match

  unfoldable pub compile_predicate : Predicate num.Number → Compiled (Rule num.F64)
  unfolding compile_with
  compile_predicate p = compile_with p.operator p

  unfoldable mutual
    unfolding compile_predicate

    pub compile_segment_match : SegmentMatch num.Number → Compiled (Rule num.F64)
    compile_segment_match (SegmentMatch.and ms) = do rs ← compile_matches ms; ok (Rule.and rs)
    compile_segment_match (SegmentMatch.or ms) = do rs ← compile_matches ms; ok (Rule.or rs)
    compile_segment_match (SegmentMatch.not m) = do r ← compile_segment_match m; ok (Rule.not r)
    compile_segment_match (SegmentMatch.predicate p) = compile_predicate p

    pub compile_matches : SegmentMatches num.Number → Compiled (Rules num.F64)
    compile_matches nil = ok Targeting.nil
    compile_matches (cons m ms) = do
      r ← compile_segment_match m
      rs ← compile_matches ms
      ok (Targeting.cons r rs)
