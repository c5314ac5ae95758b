-- ===== src/Compiler/Meaning/Segments.antt =====
-- Segments: a predicate compares the attribute with the reference values, and the connectives are those of
-- Boolean logic.
pub mod Connectives
use flaps.Prelude.{
  String, ◌≡◌, refl, ap, Bool, true, false, not, ◌&&◌, ◌||◌, none, List, [], ◌∷◌, ok, ◌>>=◌,
  >>=-eq-ok, ok-injective, Bool-cases, inl, inr,
}
use flaps.Json
use flaps.Json.{Value, null, bool, number, string, array, object}
use flaps.Numbers.{Numbers}
use flaps.Versions.{Versions}
use flaps.Eval.Targeting
use flaps.Eval.Targeting.{Rule, Rules, Literal, SemVerOp}
use flaps.Eval.Coerce
use flaps.Eval.Coerce.{JsonValue, number_value, literal_value, loose_eq, truthy}
use flaps.Eval.Logic.{eval_var, eval_and, eval_or, and_from, or_from}
use flaps.Eval.Errors.{apply_all}
use flaps.Eval.Collections.{found_in, eval_in}
use flaps.Eval.Custom.{
  prefix, suffix, compare_affix, sem_ver_values, eval_string_comparison, eval_sem_ver,
}
use flaps.Eval.Apply.{apply, operands, compare_values, negate, eval_array}
use flaps.Domain.Segment.{
  MatchOperator, SegmentMatch, SegmentMatches, nil, cons, equals, not_equals, in_list, not_in_list,
  starts_with, ends_with, contains, sem_ver_eq, sem_ver_neq, sem_ver_lt, sem_ver_lte, sem_ver_gt,
  sem_ver_gte, sem_ver_caret, sem_ver_tilde,
}
use flaps.Compiler.Segment.{
  or_zero, json_to_literal, literal_rules, one_literal, some_literals, compile_with, compile_semver,
  compile_predicate, compile_segment_match, compile_matches,
}

module _ ⦃num : Numbers⦄ where
  -- A reference value, with a number read as a float.
  unfoldable pub as_literal : JsonValue → JsonValue
  as_literal (number n) = number_value (or_zero (num.as_f64 n))
  as_literal v = v

  as_literals : List JsonValue → List JsonValue
  as_literals [] = []
  as_literals (v ∷ vs) = as_literal v ∷ as_literals vs

module _ ⦃num : Numbers⦄ ⦃ver : Versions⦄ where
  -- The attribute's value against the reference values.
  unfoldable pub holds_with : MatchOperator → JsonValue → List JsonValue → Bool
  unfolding as_literal as_literals
  holds_with equals a (v ∷ []) = loose_eq a (as_literal v)
  holds_with not_equals a (v ∷ []) = not (loose_eq a (as_literal v))
  holds_with starts_with a (v ∷ []) = truthy (compare_affix prefix a (as_literal v))
  holds_with ends_with a (v ∷ []) = truthy (compare_affix suffix a (as_literal v))
  holds_with contains a (v ∷ []) = found_in (as_literal v) a
  holds_with in_list a vs = found_in a (array (Json.of_items (as_literals vs)))
  holds_with not_in_list a vs = not (found_in a (array (Json.of_items (as_literals vs))))
  holds_with sem_ver_eq a (v ∷ []) = truthy (sem_ver_values SemVerOp.eq a (as_literal v))
  holds_with sem_ver_neq a (v ∷ []) = truthy (sem_ver_values SemVerOp.neq a (as_literal v))
  holds_with sem_ver_lt a (v ∷ []) = truthy (sem_ver_values SemVerOp.lt a (as_literal v))
  holds_with sem_ver_lte a (v ∷ []) = truthy (sem_ver_values SemVerOp.lte a (as_literal v))
  holds_with sem_ver_gt a (v ∷ []) = truthy (sem_ver_values SemVerOp.gt a (as_literal v))
  holds_with sem_ver_gte a (v ∷ []) = truthy (sem_ver_values SemVerOp.gte a (as_literal v))
  holds_with sem_ver_caret a (v ∷ []) =
      truthy (sem_ver_values SemVerOp.caret_match a (as_literal v))
  holds_with sem_ver_tilde a (v ∷ []) =
      truthy (sem_ver_values SemVerOp.tilde_match a (as_literal v))
  holds_with operator a vs = false

  unfoldable mutual
    unfolding holds_with

    pub holds : SegmentMatch num.Number → JsonValue → Bool
    holds (SegmentMatch.and ms) d = all_hold ms d
    holds (SegmentMatch.or ms) d = some_holds ms d
    holds (SegmentMatch.not m) d = not (holds m d)
    holds (SegmentMatch.predicate p) d =
        holds_with p.operator (eval_var p.attribute none d) p.values

    pub all_hold : SegmentMatches num.Number → JsonValue → Bool
    all_hold nil d = true
    all_hold (cons m ms) d = holds m d && all_hold ms d

    pub some_holds : SegmentMatches num.Number → JsonValue → Bool
    some_holds nil d = false
    some_holds (cons m ms) d = holds m d || some_holds ms d

  -- `r` evaluates, to a value that is truthy exactly if `b` is true.
  abbrev pub Decides : Rule num.F64 → JsonValue → Bool → Type 0
  Decides r d b = (w : JsonValue) × (apply r d ≡ ok w) × (truthy w ≡ b)

  json_to_literal-value :
      (operator : String) (v : JsonValue) {l : Literal num.F64}
      → json_to_literal operator v ≡ ok l
      → literal_value l ≡ as_literal v
  unfolding json_to_literal Coerce.literal_value as_literal
  json_to_literal-value operator null h = rw (← ok-injective h)
  json_to_literal-value operator (bool b) h = rw (← ok-injective h)
  json_to_literal-value operator (number n) h = rw (← ok-injective h)
  json_to_literal-value operator (string s) h = rw (← ok-injective h)
  json_to_literal-value operator (array vs) h = cc
  json_to_literal-value operator (object fs) h = cc

  literal_rules-apply :
      (operator : String) (vs : List JsonValue) {rs : Rules num.F64} (d : JsonValue)
      → literal_rules operator vs ≡ ok rs
      → apply_all (operands rs) d ≡ ok (as_literals vs)
  unfolding literal_rules apply_all apply as_literals
  literal_rules-apply operator [] d h = rw (← ok-injective h)
  literal_rules-apply operator (v ∷ vs) d h =
      let (l, e, k) = >>=-eq-ok (json_to_literal operator v) _ h in
      let (rs, e', k') = >>=-eq-ok (literal_rules operator vs) _ k in
      rw (
        ← ok-injective k',
        literal_rules-apply operator vs d e',
        json_to_literal-value operator v e,
      )

  -- A rule that was made from the literal of the one reference value.
  compiled_one :
      (operator : String) (vs : List JsonValue) (make : Literal num.F64 → Rule num.F64)
      {r : Rule num.F64}
      → (one_literal operator vs >>= λ l. ok (make l)) ≡ ok r
      → (v : JsonValue) × (l : Literal num.F64) × (vs ≡ v ∷ [])
        × (make l ≡ r)
        × (literal_value l ≡ as_literal v)
  unfolding one_literal
  compiled_one operator [] make h = cc
  compiled_one operator (v ∷ []) make h =
      let (l, e, k) = >>=-eq-ok (json_to_literal operator v) _ h in
      (v, l, refl, ok-injective k, json_to_literal-value operator v e)
  compiled_one operator (v ∷ w ∷ vs) make h = cc

  compiled_some :
      (operator : String) (vs : List JsonValue) (make : Rule num.F64 → Rule num.F64)
      {r : Rule num.F64} (d : JsonValue)
      → (some_literals operator vs >>= λ l. ok (make l)) ≡ ok r
      → (rs : Rules num.F64) × (make (Rule.array rs) ≡ r)
        × (apply_all (operands rs) d ≡ ok (as_literals vs))
  unfolding some_literals
  compiled_some operator [] make d h = cc
  compiled_some operator (v ∷ vs) make d h =
      let (a, e, k) = >>=-eq-ok (some_literals operator (v ∷ vs)) _ h in
      let (rs, e', k') = >>=-eq-ok (literal_rules operator (v ∷ vs)) _ e in
      (rs, rw (ok-injective k') (ok-injective k), literal_rules-apply operator (v ∷ vs) d e')

  sem_ver-Decides :
      (op : SemVerOp) (a : String) (o : MatchOperator) (vs : List JsonValue) {r : Rule num.F64}
      (d : JsonValue)
      → compile_semver (record { attribute = a; operator = o; values = vs }) op ≡ ok r
      → (v : JsonValue) × (vs ≡ v ∷ [])
        × Decides r d (truthy (sem_ver_values op (eval_var a none d) (as_literal v)))
  unfolding compile_semver apply eval_sem_ver
  sem_ver-Decides op a o vs d h =
      let (v, l, split, made, value) = compiled_one _ vs _ h in
      (
        v,
        split,
        (_, rw (← made) refl, ap (λ x. truthy (sem_ver_values op (eval_var a none d) x)) value),
      )

  pub predicate-Decides :
      (a : String) (o : MatchOperator) (vs : List JsonValue) {r : Rule num.F64} (d : JsonValue)
      → compile_with o (record { attribute = a; operator = o; values = vs }) ≡ ok r
      → Decides r d (holds_with o (eval_var a none d) vs)
  unfolding compile_with holds_with apply compare_values negate truthy eval_string_comparison
      eval_in eval_array
  predicate-Decides a equals vs d h =
      let (v, l, split, made, value) = compiled_one _ vs _ h in
      rw (split, ← made) (_, refl, ap (loose_eq (eval_var a none d)) value)
  predicate-Decides a not_equals vs d h =
      let (v, l, split, made, value) = compiled_one _ vs _ h in
      rw (split, ← made) (_, refl, ap (λ x. not (loose_eq (eval_var a none d) x)) value)
  predicate-Decides a starts_with vs d h =
      let (v, l, split, made, value) = compiled_one _ vs _ h in
      rw (split, ← made)
        (_, refl, ap (λ x. truthy (compare_affix prefix (eval_var a none d) x)) value)
  predicate-Decides a ends_with vs d h =
      let (v, l, split, made, value) = compiled_one _ vs _ h in
      rw (split, ← made)
        (_, refl, ap (λ x. truthy (compare_affix suffix (eval_var a none d) x)) value)
  predicate-Decides a contains vs d h =
      let (v, l, split, made, value) = compiled_one _ vs _ h in
      rw (split, ← made) (_, refl, ap (λ x. found_in x (eval_var a none d)) value)
  predicate-Decides a in_list vs d h =
      let (rs, made, values) = compiled_some _ vs _ d h in rw (← made, values) (_, refl, refl)
  predicate-Decides a not_in_list vs d h =
      let (rs, made, values) = compiled_some _ vs _ d h in rw (← made, values) (_, refl, refl)
  predicate-Decides a sem_ver_eq vs d h =
      let (v, split, decided) = sem_ver-Decides SemVerOp.eq a sem_ver_eq vs d h in rw split decided
  predicate-Decides a sem_ver_neq vs d h =
      let (v, split, decided) = sem_ver-Decides SemVerOp.neq a sem_ver_neq vs d h in
      rw split decided
  predicate-Decides a sem_ver_lt vs d h =
      let (v, split, decided) = sem_ver-Decides SemVerOp.lt a sem_ver_lt vs d h in rw split decided
  predicate-Decides a sem_ver_lte vs d h =
      let (v, split, decided) = sem_ver-Decides SemVerOp.lte a sem_ver_lte vs d h in
      rw split decided
  predicate-Decides a sem_ver_gt vs d h =
      let (v, split, decided) = sem_ver-Decides SemVerOp.gt a sem_ver_gt vs d h in rw split decided
  predicate-Decides a sem_ver_gte vs d h =
      let (v, split, decided) = sem_ver-Decides SemVerOp.gte a sem_ver_gte vs d h in
      rw split decided
  predicate-Decides a sem_ver_caret vs d h =
      let (v, split, decided) = sem_ver-Decides SemVerOp.caret_match a sem_ver_caret vs d h in
      rw split decided
  predicate-Decides a sem_ver_tilde vs d h =
      let (v, split, decided) = sem_ver-Decides SemVerOp.tilde_match a sem_ver_tilde vs d h in
      rw split decided
