-- ===== src/Eval/Parse/Rule.antt =====
-- `RuleParser` of crates/flaps-eval/src/parse.rs: JSON to rules. What a `$ref` stands for is a function
-- `reference` of the path and the name; `Parse.Document` ties it to the declared evaluators.
mod Arguments
unfoldable pub use Arguments.*
use flaps.Prelude.{
  ℕ, String, Option, none, some, List, [], ◌∷◌, ◌++◌, ok, err, ◌>>=◌, ◌==◌, if◌then◌else◌,
}
use flaps.Json.{Value, Items, null, bool, number, string, array, object, end, field}
use flaps.Json
use flaps.Numbers.{Numbers}
use flaps.Eval.Targeting
use flaps.Eval.Targeting.{Rule, Literal}
use flaps.Eval.Coerce.{JsonValue}
use flaps.Eval.Parse.Errors.{Parsed, unknown_operator, invalid, bad_args, at_name, at_index}

-- `match operator { "a" => .., "b" => .., }`
unfoldable pub choose {ℓ} : {A : Type ℓ} → String → List (String × A) → Option A
choose operator [] = none
choose operator ((name, a) ∷ rest) = if name == operator then some a else choose operator rest

module _ ⦃num : Numbers⦄ where
  abbrev Args : Type 0
  Args = List (Argument num.F64 num.Number)

  -- An arm: the operator's name, and the rule at the path that ends in this name.
  abbrev pub Arms : Type 0
  Arms = List (String × (String → Parsed (Rule num.F64)))

  unfoldable pub var_of : JsonValue → String → Parsed (Rule num.F64)
  unfolding literal_of
  var_of (string attribute) path = ok (Rule.var attribute none)
  var_of (array (Json.cons (string attribute) Json.nil)) path = ok (Rule.var attribute none)
  var_of (array (Json.cons (string attribute) (Json.cons default Json.nil))) path = do
    l ← literal_of (at_index path 1) default
    ok (Rule.var attribute (some l))
  var_of value path = bad_args path "var" "expects a string path and an optional literal default"

  unfoldable pub reference_of :
      (String → String → Parsed (Rule num.F64)) → JsonValue → String → Parsed (Rule num.F64)
  reference_of reference (string name) path = reference path name
  reference_of reference value path = bad_args path "$ref" "expects an evaluator name"

  unfoldable pub missing_of : Args → String → Parsed (Rule num.F64)
  missing_of args path = do rs ← rules path args; ok (Rule.missing (Targeting.of_list rs))

  -- The operators of the source's `structural`, `logic`, `comparison`, `arithmetic`, `collection` and
  -- `custom`: over the raw arguments, and over the argument list of `op_args`.
  unfoldable pub structural : (String → String → Parsed (Rule num.F64)) → JsonValue → Args → Arms
  unfolding reference_of var_of missing_of
  structural reference value args =
      ("$ref", reference_of reference value)
      ∷ ("var", var_of value)
      ∷ ("missing", missing_of args)
      ∷ ("missing_some", missing_some_of args)
      ∷ ("if", variadic "if" Rule.if_chain 2 args)
      ∷ []

  unfoldable pub logic : Args → Arms
  logic args =
      ("!", unary "!" Rule.not args)
      ∷ ("!!", unary "!!" Rule.truthy args)
      ∷ ("and", variadic "and" Rule.and 1 args)
      ∷ ("or", variadic "or" Rule.or 1 args)
      ∷ []

  unfoldable pub comparison : Args → Arms
  comparison args =
      ("==", binary "==" Rule.eq args)
      ∷ ("===", binary "===" Rule.strict_eq args)
      ∷ ("!=", binary "!=" Rule.neq args)
      ∷ ("!==", binary "!==" Rule.strict_neq args)
      ∷ (">", binary ">" Rule.gt args)
      ∷ (">=", binary ">=" Rule.gte args)
      ∷ ("<", bounded "<" Rule.lt 2 3 args)
      ∷ ("<=", bounded "<=" Rule.lte 2 3 args)
      ∷ []

  unfoldable pub arithmetic : Args → Arms
  arithmetic args =
      ("+", variadic "+" Rule.add 1 args)
      ∷ ("-", bounded "-" Rule.sub 1 2 args)
      ∷ ("*", variadic "*" Rule.mul 1 args)
      ∷ ("/", binary "/" Rule.div args)
      ∷ ("%", binary "%" Rule.mod_rule args)
      ∷ ("min", variadic "min" Rule.min 1 args)
      ∷ ("max", variadic "max" Rule.max 1 args)
      ∷ []

  unfoldable pub collection : Args → Arms
  collection args =
      ("cat", variadic "cat" Rule.cat 1 args)
      ∷ ("substr", bounded "substr" Rule.substr 2 3 args)
      ∷ ("in", binary "in" Rule.in_rule args)
      ∷ ("merge", variadic "merge" Rule.merge 1 args)
      ∷ ("map", binary "map" Rule.map args)
      ∷ ("filter", binary "filter" Rule.filter args)
      ∷ ("reduce", ternary "reduce" Rule.reduce args)
      ∷ ("all", binary "all" Rule.all args)
      ∷ ("none", binary "none" Rule.none args)
      ∷ ("some", binary "some" Rule.some args)
      ∷ []

  unfoldable pub custom : JsonValue → Args → Arms
  custom value args =
      ("starts_with", binary "starts_with" Rule.starts_with args)
      ∷ ("ends_with", binary "ends_with" Rule.ends_with args)
      ∷ ("sem_ver", sem_ver_of args)
      ∷ ("fractional", fractional_of value args)
      ∷ []

  unfoldable pub arms : (String → String → Parsed (Rule num.F64)) → JsonValue → Args → Arms
  unfolding structural logic comparison arithmetic collection custom
  arms reference value args =
      structural reference value args
      ++ (logic args
          ++ (comparison args ++ (arithmetic args ++ (collection args ++ custom value args))))

  unfoldable pub run_arm :
      String → String → Option (String → Parsed (Rule num.F64)) → Parsed (Rule num.F64)
  run_arm path operator none = err (unknown_operator path operator)
  run_arm path operator (some arm) = arm (at_name path operator)

  unfoldable pub operation :
      (String → String → Parsed (Rule num.F64))
      → String
      → JsonValue
      → Args
      → String
      → Parsed (Rule num.F64)
  unfolding choose arms run_arm
  operation reference operator value args path =
      run_arm path operator (choose operator (arms reference value args))

  unfoldable mutual
    pub rule :
        (String → String → Parsed (Rule num.F64)) → JsonValue → String → Parsed (Rule num.F64)
    rule reference null path = ok (Rule.literal Literal.null)
    rule reference (bool b) path = ok (Rule.literal (Literal.bool b))
    rule reference (number n) path = number_rule path (num.as_f64 n)
    rule reference (string s) path = ok (Rule.literal (Literal.string s))
    rule reference (array vs) path = do
      rs ← rules path (arguments reference vs)
      ok (Rule.array (Targeting.of_list rs))
    rule reference (object (field operator (array vs) end)) path =
        operation reference operator (array vs) (arguments reference vs) path
    rule reference (object (field operator v end)) path =
        operation reference operator v
          (record { value = v; parse = rule reference v; parse_elements = no_elements } ∷ []) path
    rule reference (object fs) path =
        invalid path "an operation must be an object with exactly one key"

    pub arguments : (String → String → Parsed (Rule num.F64)) → Items num.Number → Args
    arguments reference Json.nil = []
    arguments reference (Json.cons (array vs) rest) =
        record {
          value = array vs;
          parse = rule reference (array vs);
          parse_elements = λ path. rules path (arguments reference vs);
        }
        ∷ arguments reference rest
    arguments reference (Json.cons v rest) =
        record { value = v; parse = rule reference v; parse_elements = no_elements }
        ∷ arguments reference rest
