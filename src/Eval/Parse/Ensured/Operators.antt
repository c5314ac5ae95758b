-- ===== src/Eval/Parse/Ensured/Operators.antt =====
-- The operators: every arm of the parser's match ensures a rule with no `$ref` left in it, over such arguments.
use flaps.Prelude.{String, List, [], ◌∷◌, ◌++◌, ◌==◌, All, Bool-cases, inl, inr}
use flaps.Json.{Value, Items, Fields, null, bool, number, string, array, object, end, field}
use flaps.Json
use flaps.Numbers.{Numbers}
use flaps.Eval.Targeting.{Rule}
use flaps.Eval.Coerce.{JsonValue}
use flaps.Eval.Apply.Resolved.{IsResolved}
use flaps.Eval.Parse.Errors.{Parsed, at_name, at_index}
use flaps.Eval.Parse.Rule.{
  Argument, Arms, rules, choose, arms, structural, logic, comparison, arithmetic, collection,
  custom, run_arm, operation, var_of, reference_of, missing_of, literal_of,
}
use flaps.Eval.Parse.Ensured.{
  Ensures, Anything, Ensures->>=, Resolves, EachResolved, IsGood, rules-Ensures, unary-Ensures,
  binary-Ensures, ternary-Ensures, variadic-Ensures, bounded-Ensures,
}
use flaps.Eval.Parse.Ensured.Forms.{
  literal_of-Ensures, missing_some_of-Ensures, sem_ver_of-Ensures, fractional_of-Ensures,
}

infixr 20 ◌&◌
-- A pair, for a long row of them.
abbrev ◌&◌ : {A B : Type 0} → A → B → A × B
a & b = (a, b)

module _ ⦃num : Numbers⦄ where
  abbrev Args : Type 0
  Args = List (Argument num.F64 num.Number)

  -- What a `$ref` stands for, at every path and name.
  abbrev pub Reference : Type 0
  Reference = String → String → Parsed (Rule num.F64)

  abbrev pub ArmResolves : (String × (String → Parsed (Rule num.F64))) → Type 0
  ArmResolves arm = (path : String) → Resolves (arm.1 path)

  var_of-Ensures : (v : JsonValue) (path : String) → Resolves (var_of v path)
  unfolding var_of Ensures IsResolved
  var_of-Ensures null path = tt
  var_of-Ensures (bool b) path = tt
  var_of-Ensures (number n) path = tt
  var_of-Ensures (string s) path = tt
  var_of-Ensures (object fs) path = tt
  var_of-Ensures (array Json.nil) path = tt
  var_of-Ensures (array (Json.cons null rest)) path = tt
  var_of-Ensures (array (Json.cons (bool b) rest)) path = tt
  var_of-Ensures (array (Json.cons (number n) rest)) path = tt
  var_of-Ensures (array (Json.cons (array vs) rest)) path = tt
  var_of-Ensures (array (Json.cons (object fs) rest)) path = tt
  var_of-Ensures (array (Json.cons (string s) Json.nil)) path = tt
  var_of-Ensures (array (Json.cons (string s) (Json.cons default Json.nil))) path =
      Ensures->>= Anything IsResolved (literal_of (at_index path 1) default) _
        (literal_of-Ensures _ default) λ l known. tt
  var_of-Ensures (array (Json.cons (string s) (Json.cons v (Json.cons w rest)))) path = tt

  reference_of-Ensures :
      (reference : Reference) (v : JsonValue) (path : String)
      → ((p name : String) → Resolves (reference p name))
      → Resolves (reference_of reference v path)
  unfolding reference_of Ensures
  reference_of-Ensures reference null path h = tt
  reference_of-Ensures reference (bool b) path h = tt
  reference_of-Ensures reference (number n) path h = tt
  reference_of-Ensures reference (string name) path h = h path name
  reference_of-Ensures reference (array vs) path h = tt
  reference_of-Ensures reference (object fs) path h = tt

  missing_of-Ensures :
      (args : Args) (path : String) → All IsGood args → Resolves (missing_of args path)
  unfolding missing_of Ensures IsResolved
  missing_of-Ensures args path h =
      Ensures->>= EachResolved IsResolved (rules path args) _ (rules-Ensures path args h)
        λ rs others. others

  structural-Ensures :
      (reference : Reference) (value : JsonValue) (args : Args)
      → ((p name : String) → Resolves (reference p name))
      → All IsGood args
      → All ArmResolves (structural reference value args)
  unfolding structural IsResolved
  structural-Ensures reference value args k h =
      (λ path. reference_of-Ensures reference value path k)
      & (λ path. var_of-Ensures value path)
      & (λ path. missing_of-Ensures args path h)
      & (λ path. missing_some_of-Ensures args path h)
      & (λ path. variadic-Ensures "if" Rule.if_chain 2 args path h (λ rs others. others))
      & tt

  logic-Ensures : (args : Args) → All IsGood args → All ArmResolves (logic args)
  unfolding logic IsResolved
  logic-Ensures args h =
      (λ path. unary-Ensures "!" Rule.not args path h (λ r first. first))
      & (λ path. unary-Ensures "!!" Rule.truthy args path h (λ r first. first))
      & (λ path. variadic-Ensures "and" Rule.and 1 args path h (λ rs others. others))
      & (λ path. variadic-Ensures "or" Rule.or 1 args path h (λ rs others. others))
      & tt

  comparison-Ensures : (args : Args) → All IsGood args → All ArmResolves (comparison args)
  unfolding comparison IsResolved
  comparison-Ensures args h =
      (λ path. binary-Ensures "==" Rule.eq args path h (λ r s first second. (first, second)))
      & (λ path.
          binary-Ensures "===" Rule.strict_eq args path h (λ r s first second. (first, second)))
      & (λ path. binary-Ensures "!=" Rule.neq args path h (λ r s first second. (first, second)))
      & (λ path.
          binary-Ensures "!==" Rule.strict_neq args path h (λ r s first second. (first, second)))
      & (λ path. binary-Ensures ">" Rule.gt args path h (λ r s first second. (first, second)))
      & (λ path. binary-Ensures ">=" Rule.gte args path h (λ r s first second. (first, second)))
      & (λ path. bounded-Ensures "<" Rule.lt 2 3 args path h (λ rs others. others))
      & (λ path. bounded-Ensures "<=" Rule.lte 2 3 args path h (λ rs others. others))
      & tt

  arithmetic-Ensures : (args : Args) → All IsGood args → All ArmResolves (arithmetic args)
  unfolding arithmetic IsResolved
  arithmetic-Ensures args h =
      (λ path. variadic-Ensures "+" Rule.add 1 args path h (λ rs others. others))
      & (λ path. bounded-Ensures "-" Rule.sub 1 2 args path h (λ rs others. others))
      & (λ path. variadic-Ensures "*" Rule.mul 1 args path h (λ rs others. others))
      & (λ path. binary-Ensures "/" Rule.div args path h (λ r s first second. (first, second)))
      & (λ path. binary-Ensures "%" Rule.mod_rule args path h (λ r s first second. (first, second)))
      & (λ path. variadic-Ensures "min" Rule.min 1 args path h (λ rs others. others))
      & (λ path. variadic-Ensures "max" Rule.max 1 args path h (λ rs others. others))
      & tt

  collection-Ensures : (args : Args) → All IsGood args → All ArmResolves (collection args)
  unfolding collection IsResolved
  collection-Ensures args h =
      (λ path. variadic-Ensures "cat" Rule.cat 1 args path h (λ rs others. others))
      & (λ path. bounded-Ensures "substr" Rule.substr 2 3 args path h (λ rs others. others))
      & (λ path. binary-Ensures "in" Rule.in_rule args path h (λ r s first second. (first, second)))
      & (λ path. variadic-Ensures "merge" Rule.merge 1 args path h (λ rs others. others))
      & (λ path. binary-Ensures "map" Rule.map args path h (λ r s first second. (first, second)))
      & (λ path.
          binary-Ensures "filter" Rule.filter args path h (λ r s first second. (first, second)))
      & (λ path.
          ternary-Ensures "reduce" Rule.reduce args path h
            (λ r s t first second third. (first, second, third)))
      & (λ path. binary-Ensures "all" Rule.all args path h (λ r s first second. (first, second)))
      & (λ path. binary-Ensures "none" Rule.none args path h (λ r s first second. (first, second)))
      & (λ path. binary-Ensures "some" Rule.some args path h (λ r s first second. (first, second)))
      & tt

  custom-Ensures :
      (value : JsonValue) (args : Args) → All IsGood args → All ArmResolves (custom value args)
  unfolding custom IsResolved
  custom-Ensures value args h =
      (λ path.
        binary-Ensures "starts_with" Rule.starts_with args path h
          (λ r s first second. (first, second)))
      & (λ path.
          binary-Ensures "ends_with" Rule.ends_with args path h
            (λ r s first second. (first, second)))
      & (λ path. sem_ver_of-Ensures args path h)
      & (λ path. fractional_of-Ensures value args path h)
      & tt

  All-append {ℓ} :
      {A : Type ℓ} (P : A → Type 0) (xs ys : List A) → All P xs → All P ys → All P (xs ++ ys)
  All-append P [] ys h k = k
  All-append P (x ∷ xs) ys h k = (h.0, All-append P xs ys h.1 k)

  arms-Ensures :
      (reference : Reference) (value : JsonValue) (args : Args)
      → ((p name : String) → Resolves (reference p name))
      → All IsGood args
      → All ArmResolves (arms reference value args)
  unfolding arms
  arms-Ensures reference value args k h =
      let collection_on = collection args ++ custom value args in
      let arithmetic_on = arithmetic args ++ collection_on in
      let comparison_on = comparison args ++ arithmetic_on in
      All-append ArmResolves (structural reference value args) (logic args ++ comparison_on)
        (structural-Ensures reference value args k h)
        (All-append ArmResolves (logic args) comparison_on (logic-Ensures args h) (
          All-append ArmResolves (comparison args) arithmetic_on (comparison-Ensures args h) (
            All-append ArmResolves (arithmetic args) collection_on (arithmetic-Ensures args h) (
              All-append ArmResolves (collection args) (custom value args)
                (collection-Ensures args h) (custom-Ensures value args h)))))

  run_arm-Ensures :
      (path operator : String) (options : Arms)
      → All ArmResolves options
      → Resolves (run_arm path operator (choose operator options))
  unfolding run_arm choose Ensures
  run_arm-Ensures path operator [] h = tt
  run_arm-Ensures path operator ((name, arm) ∷ rest) h = elim (Bool-cases (name == operator)) [
    | inl here ↦ rw here (h.0 (at_name path operator))
    | inr later ↦ rw later (run_arm-Ensures path operator rest h.1)
  ]

  pub operation-Ensures :
      (reference : Reference) (operator : String) (value : JsonValue) (args : Args) (path : String)
      → ((p name : String) → Resolves (reference p name))
      → All IsGood args
      → Resolves (operation reference operator value args path)
  unfolding operation
  operation-Ensures reference operator value args path k h =
      run_arm-Ensures path operator (arms reference value args)
        (arms-Ensures reference value args k h)
