-- ===== src/Examples/Evaluation.antt =====
-- Rules, rollouts and flag sets at concrete inputs.
use flaps.Prelude.{◌^◌, ◌≡◌, refl, List, [], ◌∷◌, ◌++◌, none, some, ok, arith}
use flaps.Json.{string, object, end, field}
use flaps.Eval.Targeting
use flaps.Eval.Targeting.{Rule, Literal, Bucket}
use flaps.Eval.Coerce.{JsonValue}
use flaps.Eval.Murmur.{murmur3_bucket}
use flaps.Eval.Fractional.{total_weight, pick_from, default_bucketing, eval_fractional}
use flaps.Eval.Fractional.Ranges.{
  Lands, two_way, eval_fractional-Lands, eval_fractional_mono, eval_fractional-take,
}
use flaps.Eval.Apply.{apply}
use flaps.Eval.Apply.Resolved.{IsResolved, Returns, apply-Returns}
use flaps.Examples.Stubs.{integers, plain_versions}

abbrev user : JsonValue
user = object (
    field "$flagd" (object (field "flagKey" (string "headerColor") end))
      (field "targetingKey" (string "user:abc") end))

abbrev halves : List Bucket
halves = two_way "red" "blue" 25 75

eval_fractional-Lands_example :
    (x : Bucket) × Lands (murmur3_bucket (default_bucketing user) (total_weight halves)) halves x
    × (eval_fractional none halves user ≡ ok (string x.variant))
eval_fractional-Lands_example =
    eval_fractional-Lands halves user (unfold total_weight in omega arith)

quarter_serves_red : eval_fractional none (two_way "red" "blue" 40 60) user ≡ ok (string "red")
unfolding eval_fractional murmur3_bucket total_weight pick_from default_bucketing
    flaps.Prelude.Map.get
quarter_serves_red = refl

eval_fractional_mono_example :
    eval_fractional none (two_way "red" "blue" 65 35) user ≡ ok (string "red")
eval_fractional_mono_example =
    eval_fractional_mono "red" "blue" 40 65 60 35 user (omega arith) refl quarter_serves_red

abbrev heavy : List Bucket
heavy = two_way "a" "b" 4294967295 5

eval_fractional-take_example :
    (x : Bucket) × Lands
      (murmur3_bucket (default_bucketing user) (total_weight (heavy ++ halves)))
      heavy
      x
    × (eval_fractional none (heavy ++ halves) user ≡ ok (string x.variant))
eval_fractional-take_example =
    eval_fractional-take heavy halves user (unfold total_weight in omega arith)

-- {"and": [{"==": [{"var": "targetingKey"}, "user:abc"]}, {"!": [null]}]}
abbrev sample : Rule integers.F64
sample = Rule.and (
    Targeting.of_list (
      Rule.eq (Rule.var "targetingKey" none) (Rule.literal (Literal.string "user:abc"))
      ∷ Rule.not (Rule.literal Literal.null)
      ∷ []))

apply-Returns_example : Returns (apply sample user)
apply-Returns_example = apply-Returns sample user (unfold IsResolved in ((tt, tt), (tt, tt)))
