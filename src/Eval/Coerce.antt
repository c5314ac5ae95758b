-- ===== src/Eval/Coerce.antt =====
-- The conversions and comparisons of crates/flaps-eval/src/logic.rs: truthiness, JavaScript's `Number`,
-- `parseFloat` and `String`, loose and strict equality, and the two orders.
pub mod Prefix
use flaps.Prelude.{
  ℕ, zero, suc, ◌+◌, String, ◌≡◌, refl, Bool, true, false, not, ◌&&◌, Option, none, some, List, [],
  ◌∷◌, ◌==◌, get_elem?, if◌then◌else◌,
}
use flaps.Prelude.Int.{ℤ, pos}
use flaps.Prelude.Text
use flaps.Json
use flaps.Json.{Value, Items, nil, cons, null, bool, number, string, array, object}
use flaps.Numbers.{Numbers}
use flaps.Eval.Targeting.{Literal}
use Prefix.{numeric_prefix}

-- A JSON value, and a rule's literal, of the numbers at hand.
abbrev pub JsonValue : ⦃num : Numbers⦄ → Type 0
JsonValue ⦃num⦄ = Value num.Number

module _ ⦃num : Numbers⦄ where
  open num use {F64, as_f64, from_f64, of_nat, nan}

  abbrev pub one_or_zero : Bool → F64
  one_or_zero true = of_nat 1
  one_or_zero false = of_nat 0

  abbrev pub or_else : Option F64 → F64 → F64
  or_else none d = d
  or_else (some x) d = x

  abbrev pub number_or_null : Option num.Number → JsonValue
  number_or_null none = null
  number_or_null (some n) = number n

  unfoldable pub number_value : F64 → JsonValue
  number_value x = number_or_null (from_f64 x)

  unfoldable pub literal_value : Literal F64 → JsonValue
  unfolding number_value
  literal_value Literal.null = null
  literal_value (Literal.bool b) = bool b
  literal_value (Literal.number x) = number_value x
  literal_value (Literal.string s) = string s

  unfoldable pub truthy : JsonValue → Bool
  truthy null = false
  truthy (bool b) = b
  truthy (number n) = elim (as_f64 n) [ none ↦ false | some x ↦ not (num.eq x (of_nat 0)) ]
  truthy (string s) = not (Text.is_empty s)
  truthy (array nil) = false
  truthy (array (cons v vs)) = true
  truthy (object fs) = true

  unfoldable pub format_number : F64 → String
  format_number x =
      if num.eq x (of_nat 0)
      then "0"
      else if num.eq (num.fract x) (of_nat 0) && num.lt (num.abs x) num.big
      then num.show_rounded x
      else num.show x

  unfoldable mutual
    unfolding format_number

    pub to_string : JsonValue → String
    to_string null = "null"
    to_string (bool true) = "true"
    to_string (bool false) = "false"
    to_string (number n) = format_number (or_else (as_f64 n) nan)
    to_string (string s) = s
    to_string (array vs) = Text.join "," (strings vs)
    to_string (object fs) = "[object Object]"

    -- The elements of an array, `null` printing empty.
    pub strings : Items num.Number → List String
    strings nil = []
    strings (cons null vs) = "" ∷ strings vs
    strings (cons v vs) = to_string v ∷ strings vs

  unfoldable pub to_number : JsonValue → F64
  to_number null = of_nat 0
  to_number (bool b) = one_or_zero b
  to_number (number n) = or_else (as_f64 n) nan
  to_number (string s) =
      let trimmed = Text.trim s in
      if Text.is_empty trimmed then of_nat 0 else or_else (num.parse trimmed) nan
  to_number (array nil) = of_nat 0
  to_number (array (cons v nil)) = to_number v
  to_number (array (cons v (cons w vs))) = nan
  to_number (object fs) = nan

  unfoldable pub parse_float : JsonValue → F64
  parse_float v = or_else (num.parse (numeric_prefix (Text.trim_start (to_string v)))) nan

  unfoldable pub to_integer : JsonValue → ℤ
  to_integer v = let x = to_number v in if num.is_nan x then pos 0 else num.to_i64 (num.trunc x)

  unfoldable pub nums_eq : F64 → F64 → Bool
  nums_eq x y = num.eq x y

  -- The recursion turns booleans into numbers and then composites into strings: four calls at most.
  unfoldable pub loose_eq_fuel : ℕ → JsonValue → JsonValue → Bool
  unfolding nums_eq number_value
  loose_eq_fuel zero l r = false
  loose_eq_fuel (suc f) null null = true
  loose_eq_fuel (suc f) null r = false
  loose_eq_fuel (suc f) l null = false
  loose_eq_fuel (suc f) (bool b) r = loose_eq_fuel f (number_value (one_or_zero b)) r
  loose_eq_fuel (suc f) l (bool b) = loose_eq_fuel f (number_value (one_or_zero b)) l
  loose_eq_fuel (suc f) (string a) (string b) = a == b
  loose_eq_fuel (suc f) (number m) (number n) =
      nums_eq (to_number (number m)) (to_number (number n))
  loose_eq_fuel (suc f) (number m) (string b) =
      nums_eq (to_number (number m)) (to_number (string b))
  loose_eq_fuel (suc f) (string a) (number n) =
      nums_eq (to_number (string a)) (to_number (number n))
  loose_eq_fuel (suc f) (array vs) (string b) =
      loose_eq_fuel f (string (to_string (array vs))) (string b)
  loose_eq_fuel (suc f) (array vs) (number n) =
      loose_eq_fuel f (string (to_string (array vs))) (number n)
  loose_eq_fuel (suc f) (object fs) (string b) =
      loose_eq_fuel f (string (to_string (object fs))) (string b)
  loose_eq_fuel (suc f) (object fs) (number n) =
      loose_eq_fuel f (string (to_string (object fs))) (number n)
  loose_eq_fuel (suc f) (string a) (array vs) =
      loose_eq_fuel f (string (to_string (array vs))) (string a)
  loose_eq_fuel (suc f) (number m) (array vs) =
      loose_eq_fuel f (string (to_string (array vs))) (number m)
  loose_eq_fuel (suc f) (string a) (object fs) =
      loose_eq_fuel f (string (to_string (object fs))) (string a)
  loose_eq_fuel (suc f) (number m) (object fs) =
      loose_eq_fuel f (string (to_string (object fs))) (number m)
  loose_eq_fuel (suc f) l r = false

  unfoldable pub loose_eq : JsonValue → JsonValue → Bool
  unfolding loose_eq_fuel
  loose_eq l r = loose_eq_fuel 4 l r

  unfoldable pub strict_eq : JsonValue → JsonValue → Bool
  unfolding nums_eq
  strict_eq null null = true
  strict_eq (bool true) (bool b) = b
  strict_eq (bool false) (bool b) = not b
  strict_eq (number m) (number n) = nums_eq (to_number (number m)) (to_number (number n))
  strict_eq (string a) (string b) = a == b
  strict_eq l r = false

  unfoldable pub lt : JsonValue → JsonValue → Bool
  lt (string a) (string b) = Text.str_lt a b
  lt l r = num.lt (to_number l) (to_number r)

  unfoldable pub lte : JsonValue → JsonValue → Bool
  lte (string a) (string b) = Text.str_le a b
  lte l r = num.le (to_number l) (to_number r)

  -- A path's segments, one at a time: objects by key, arrays by index.
  descend : List String → JsonValue → Option JsonValue
  descend [] v = some v
  descend (segment ∷ rest) (object fs) = elim (Json.get_field segment fs) [
    | none ↦ none
    | some v ↦ descend rest v
  ]
  descend (segment ∷ rest) (array vs) = elim (Text.parse_usize segment) [
    | none ↦ none
    | some i ↦ elim (get_elem? (Json.items vs) i) [ none ↦ none | some v ↦ descend rest v ]
  ]
  descend (segment ∷ rest) v = none

  unfoldable pub lookup : String → JsonValue → Option JsonValue
  unfolding descend
  lookup path v = descend (Text.split_dots path) v
