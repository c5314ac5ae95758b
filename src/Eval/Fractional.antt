-- ===== src/Eval/Fractional.antt =====
-- `eval_fractional` and `bucketing_value` of crates/flaps-eval/src/fractional.rs.
pub mod Ranges
use Prim.Native.String.{◌++◌}
use flaps.Prelude.{
  ℕ, ◌+◌, String, Option, none, some, List, [], ◌∷◌, ok, ◌>>=◌, eqb, ltb, if◌then◌else◌,
}
use flaps.Json
use flaps.Json.{null, string}
use flaps.Numbers.{Numbers}
use flaps.Eval.Targeting.{Bucket}
use flaps.Eval.Coerce.{JsonValue}
use flaps.Eval.Errors.{Evaluated, Evaluator}
use flaps.Eval.Murmur.{murmur3_bucket}

-- `buckets.iter().map(|b| u64::from(b.weight)).sum()`
unfoldable pub total_weight : List Bucket → ℕ
total_weight [] = 0
total_weight (b ∷ bs) = b.weight + total_weight bs

-- The walk over the cumulated weights, from the end of the last range.
unfoldable pub pick_from : ℕ → ℕ → List Bucket → Option String
pick_from bucket range_end [] = none
pick_from bucket range_end (b ∷ bs) =
    let rest = pick_from bucket (range_end + b.weight) bs in
    if ltb bucket (range_end + b.weight) then some b.variant else rest

text_or_empty : Option String → String
text_or_empty none = ""
text_or_empty (some s) = s

module _ ⦃num : Numbers⦄ where
  -- `data.get(key).and_then(Value::as_str).unwrap_or("")`
  string_field : String → Option JsonValue → String
  unfolding text_or_empty
  string_field key none = ""
  string_field key (some v) = elim (Json.get key v) [
    | none ↦ ""
    | some w ↦ text_or_empty (Json.as_str w)
  ]

  -- The flag key and then the targeting key.
  unfoldable pub default_bucketing : JsonValue → String
  unfolding string_field
  default_bucketing d =
      string_field "flagKey" (Json.get "$flagd" d) ++ string_field "targetingKey" (some d)

  string_or : JsonValue → String → String
  string_or (string s) other = s
  string_or v other = other

  unfoldable pub bucketing_value : Option Evaluator → JsonValue → Evaluated String
  unfolding default_bucketing string_or
  bucketing_value none d = ok (default_bucketing d)
  bucketing_value (some rule) d = do v ← rule d; ok (string_or v (default_bucketing d))

  unfoldable pub variant_or_null : Option String → JsonValue
  variant_or_null none = null
  variant_or_null (some s) = string s

  unfoldable pub eval_fractional : Option Evaluator → List Bucket → JsonValue → Evaluated JsonValue
  unfolding variant_or_null bucketing_value
  eval_fractional bucket_by buckets d =
      let total = total_weight buckets in
      let chosen = do
        value ← bucketing_value bucket_by d
        ok (variant_or_null (pick_from (murmur3_bucket value total) 0 buckets))
      in if eqb total 0 then ok null else chosen
