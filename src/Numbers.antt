-- ===== src/Numbers.antt =====
-- What the evaluator uses of `f64` and of `serde_json::Number`. There are no floats here: the two
-- types and their operations are a parameter of every definition that computes with numbers.
use flaps.Prelude.{ℕ, String, Bool, Option}
use flaps.Prelude.Int.{ℤ}

pub record Numbers : Type 1 where
  pub F64 : Type 0
  -- `serde_json::Number`
  pub Number : Type 0
  pub as_f64 : Number → Option F64
  pub as_u64 : Number → Option ℕ
  pub from_f64 : F64 → Option Number
  -- `Value::from` of an unsigned and of a signed integer
  pub of_u64 : ℕ → Number
  pub of_i64 : ℤ → Number
  -- `f64::from` of a small unsigned integer, the literals `0.0` and `1.0`
  pub of_nat : ℕ → F64
  pub nan : F64
  -- the literal `1e21`
  pub big : F64
  -- `+ - * / %`, `f64::min`, `f64::max`
  pub add : F64 → F64 → F64
  pub sub : F64 → F64 → F64
  pub mul : F64 → F64 → F64
  pub div : F64 → F64 → F64
  pub rem : F64 → F64 → F64
  pub min : F64 → F64 → F64
  pub max : F64 → F64 → F64
  pub neg : F64 → F64
  pub abs : F64 → F64
  pub fract : F64 → F64
  pub trunc : F64 → F64
  -- `==`, `<`, `<=`
  pub eq : F64 → F64 → Bool
  pub lt : F64 → F64 → Bool
  pub le : F64 → F64 → Bool
  pub is_nan : F64 → Bool
  pub is_finite : F64 → Bool
  -- `as i64`, which saturates, and `as f64`
  pub to_i64 : F64 → ℤ
  pub from_i64 : ℤ → F64
  -- `str::parse::<f64>`, `{:.0}` and `{}`
  pub parse : String → Option F64
  pub show_rounded : F64 → String
  pub show : F64 → String
