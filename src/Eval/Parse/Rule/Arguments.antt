-- ===== src/Eval/Parse/Rule/Arguments.antt =====
-- The argument forms of crates/flaps-eval/src/parse.rs: `unary`, `binary`, `ternary`, `variadic`,
-- `bounded`, and those of `missing_some`, `sem_ver` and `fractional`.
use Prim.Native.String
use flaps.Prelude.{
  ℕ, ◌+◌, ◌^◌, String, Bool, true, false, ◌||◌, Option, none, some, List, [], ◌∷◌, ok, ◌>>=◌, ◌==◌,
  ltb, length, if◌then◌else◌,
}
use flaps.Prelude.Text.{show_nat}
use flaps.Json
use flaps.Json.{Value, null, bool, number, string, array, object}
use flaps.Numbers.{Numbers}
use flaps.Eval.Targeting
use flaps.Eval.Targeting.{Rule, Literal, Bucket, SemVerOp}
use flaps.Eval.Coerce.{JsonValue}
use flaps.Eval.Parse.Errors.{Parsed, invalid, bad_args, at_index}

-- An argument: its JSON, its rule at a path, and the rules of its elements at a path.
pub record Argument (F N : Type 0) : Type 0 where
  pub value : Value N
  pub parse : String → Parsed (Rule F)
  pub parse_elements : String → Parsed (List (Rule F))

infixr 65 ◌<>◌
abbrev ◌<>◌ : String → String → String
a <> b = String.◌++◌ a b

module _ ⦃num : Numbers⦄ where
  abbrev Args : Type 0
  Args = List (Argument num.F64 num.Number)

  -- Only an array has elements; the callers look first.
  unfoldable pub no_elements : String → Parsed (List (Rule num.F64))
  no_elements path = ok []

  unfoldable pub number_rule : String → Option num.F64 → Parsed (Rule num.F64)
  number_rule path none = invalid path "number does not fit a 64 bit float"
  number_rule path (some x) = ok (Rule.literal (Literal.number x))

  unfoldable pub number_literal : String → Option num.F64 → Parsed (Literal num.F64)
  number_literal path none = invalid path "number does not fit a 64 bit float"
  number_literal path (some x) = ok (Literal.number x)

  unfoldable pub literal_of : String → JsonValue → Parsed (Literal num.F64)
  unfolding number_literal
  literal_of path null = ok Literal.null
  literal_of path (bool b) = ok (Literal.bool b)
  literal_of path (number n) = number_literal path (num.as_f64 n)
  literal_of path (string s) = ok (Literal.string s)
  literal_of path v = invalid path "expected a literal value"

  -- `rules`: each item at its index.
  unfoldable pub rules_from : ℕ → String → Args → Parsed (List (Rule num.F64))
  rules_from i path [] = ok []
  rules_from i path (a ∷ rest) = do
    r ← a.parse (at_index path i)
    rs ← rules_from (i + 1) path rest
    ok (r ∷ rs)

  unfoldable pub rules : String → Args → Parsed (List (Rule num.F64))
  unfolding rules_from
  rules = rules_from 0

  unfoldable pub unary :
      String → (Rule num.F64 → Rule num.F64) → Args → String → Parsed (Rule num.F64)
  unary operator make (a ∷ []) path = do r ← a.parse (at_index path 0); ok (make r)
  unary operator make args path = bad_args path operator "expects exactly one argument"

  unfoldable pub binary :
      String → (Rule num.F64 → Rule num.F64 → Rule num.F64) → Args → String → Parsed (Rule num.F64)
  binary operator make (a ∷ b ∷ []) path = do
    r ← a.parse (at_index path 0)
    s ← b.parse (at_index path 1)
    ok (make r s)
  binary operator make args path = bad_args path operator "expects exactly two arguments"

  unfoldable pub ternary :
      String
      → (Rule num.F64 → Rule num.F64 → Rule num.F64 → Rule num.F64)
      → Args
      → String
      → Parsed (Rule num.F64)
  ternary operator make (a ∷ b ∷ c ∷ []) path = do
    r ← a.parse (at_index path 0)
    s ← b.parse (at_index path 1)
    t ← c.parse (at_index path 2)
    ok (make r s t)
  ternary operator make args path = bad_args path operator "expects exactly three arguments"

  unfoldable pub variadic :
      String → (Targeting.Rules num.F64 → Rule num.F64) → ℕ → Args → String → Parsed (Rule num.F64)
  unfolding rules
  variadic operator make minimum args path =
      if ltb (length args) minimum
      then bad_args path operator ("expects at least " <> show_nat minimum <> " argument(s)")
      else do rs ← rules path args; ok (make (Targeting.of_list rs))

  unfoldable pub bounded :
      String
      → (Targeting.Rules num.F64 → Rule num.F64)
      → ℕ
      → ℕ
      → Args
      → String
      → Parsed (Rule num.F64)
  unfolding rules
  bounded operator make minimum maximum args path =
      if ltb (length args) minimum || ltb maximum (length args)
      then bad_args path operator
          ("expects between " <> show_nat minimum <> " and " <> show_nat maximum <> " arguments")
      else do rs ← rules path args; ok (make (Targeting.of_list rs))

  unfoldable pub is_array : JsonValue → Bool
  is_array (array vs) = true
  is_array v = false

  unfoldable pub as_u64 : JsonValue → Option ℕ
  as_u64 (number n) = num.as_u64 n
  as_u64 v = none

  unfoldable pub missing_some_with :
      Option ℕ → Argument num.F64 num.Number → String → Parsed (Rule num.F64)
  unfolding is_array
  missing_some_with none keys path =
      bad_args path "missing_some" "expects a minimum count and an array of keys"
  missing_some_with (some n) keys path =
      if is_array keys.value
      then (do
        rs ← keys.parse_elements (at_index path 1)
        ok (Rule.missing_some n (Targeting.of_list rs)))
      else bad_args path "missing_some" "expects a minimum count and an array of keys"

  unfoldable pub missing_some_of : Args → String → Parsed (Rule num.F64)
  unfolding missing_some_with as_u64
  missing_some_of (n ∷ keys ∷ []) path = missing_some_with (as_u64 n.value) keys path
  missing_some_of args path =
      bad_args path "missing_some" "expects a minimum count and an array of keys"

  unfoldable pub op_of_symbol : String → Option SemVerOp
  op_of_symbol s =
      if s == "="
      then some SemVerOp.eq
      else if s == "!="
      then some SemVerOp.neq
      else if s == "<"
      then some SemVerOp.lt
      else if s == "<="
      then some SemVerOp.lte
      else if s == ">"
      then some SemVerOp.gt
      else if s == ">="
      then some SemVerOp.gte
      else if s == "^"
      then some SemVerOp.caret_match
      else if s == "~"
      then some SemVerOp.tilde_match
      else none

  unfoldable pub op_of : String → JsonValue → Parsed SemVerOp
  unfolding op_of_symbol
  op_of path (string symbol) = elim (op_of_symbol symbol) [
    | none ↦
        bad_args path "sem_ver" "the comparison operator must be one of =, !=, <, <=, >, >=, ^ or ~"
    | some op ↦ ok op
  ]
  op_of path v = bad_args path "sem_ver" "the comparison operator must be a string"

  unfoldable pub sem_ver_of : Args → String → Parsed (Rule num.F64)
  unfolding op_of
  sem_ver_of (value ∷ operator ∷ version ∷ []) path = do
    op ← op_of path operator.value
    v ← value.parse (at_index path 0)
    w ← version.parse (at_index path 2)
    ok (Rule.sem_ver v op w)
  sem_ver_of args path =
      bad_args path "sem_ver" "expects a value, a comparison operator and a version"

  unfoldable pub bad_bucket : String → Parsed Bucket
  bad_bucket path =
      bad_args path "fractional" "a bucket pairs a variant name with an optional integer weight"

  unfoldable pub weighted : String → String → Option ℕ → Parsed Bucket
  unfolding bad_bucket
  weighted path variant none = bad_bucket path
  weighted path variant (some w) =
      if ltb w (2 ^ 32) then ok (record { variant = variant; weight = w }) else bad_bucket path

  unfoldable pub bucket : String → JsonValue → Parsed Bucket
  unfolding weighted as_u64
  bucket path (array (Json.cons (string variant) Json.nil)) =
      ok (record { variant = variant; weight = 1 })
  bucket path (array (Json.cons (string variant) (Json.cons weight Json.nil))) =
      weighted path variant (as_u64 weight)
  bucket path v = bad_bucket path

  unfoldable pub buckets_from : ℕ → String → Args → Parsed (List Bucket)
  unfolding bucket
  buckets_from i path [] = ok []
  buckets_from i path (a ∷ rest) = do
    b ← bucket (at_index path i) a.value
    bs ← buckets_from (i + 1) path rest
    ok (b ∷ bs)

  -- A first argument that is no array is the bucketing expression.
  unfoldable pub fractional_args : Args → String → Parsed (Rule num.F64)
  unfolding buckets_from is_array
  fractional_args [] path = bad_args path "fractional" "expects at least one bucket"
  fractional_args (a ∷ []) path =
      if is_array a.value
      then (do bs ← buckets_from 0 path (a ∷ []); ok (Rule.fractional bs))
      else do
        r ← a.parse (at_index path 0)
        bad_args path "fractional" "expects at least one bucket"
  fractional_args (a ∷ b ∷ rest) path =
      if is_array a.value
      then (do bs ← buckets_from 0 path (a ∷ b ∷ rest); ok (Rule.fractional bs))
      else do
        r ← a.parse (at_index path 0)
        bs ← buckets_from 0 path (b ∷ rest)
        ok (Rule.fractional_by r bs)

  unfoldable pub fractional_of : JsonValue → Args → String → Parsed (Rule num.F64)
  unfolding fractional_args
  fractional_of (array vs) args path = fractional_args args path
  fractional_of v args path = bad_args path "fractional" "expects an array"
