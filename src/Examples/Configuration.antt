-- ===== src/Examples/Configuration.antt =====
-- A flag, its configuration and a document at concrete inputs.
use flaps.Prelude.{
  String, ◌≡◌, refl, Bool, true, false, Option, none, some, [], ◌∷◌, ok, err, ◌⊎◌, arith,
}
use flaps.Prelude.Map
use flaps.Prelude.Map.{BTreeMap}
use flaps.Json
use flaps.Json.{Value, null, string, array, object, end, field}
use flaps.Eval.Targeting
use flaps.Eval.Targeting.{Rule, Literal}
use flaps.Eval.Coerce.{JsonValue}
use flaps.Eval.Model
use flaps.Eval.Model.{FlagOf, FlagSetOf}
use flaps.Eval.Evaluate.{Reason, ContextOf, ResolutionOf, variant_value, evaluate}
use flaps.Eval.Evaluate.Outcomes.{evaluate-outcomes}
use flaps.Eval.Errors.{flag_not_found, invalid_variant}
use flaps.Eval.Parse.Document.{from_json, flag_set, reference, flag, targeting_of, is_resolving}
use flaps.Eval.Parse.Rule.{rule, rules, operation, choose, arms, binary, variadic}
use flaps.Eval.Parse.Values.{collect, state, variants, optional_metadata}
use flaps.Eval.Parse.Ensured.{Ensures}
use flaps.Eval.Parse.Ensured.Documents.{SetResolved, from_json-Ensures}
use flaps.Domain.Errors.{ValueType}
use flaps.Domain.Variant
use flaps.Domain.Variant.Checks.{HasType, new_iff}
use flaps.Prelude.{All}
use flaps.Domain.Variant.{VariantValue}
use flaps.Domain.Segment
use flaps.Domain.Segment.{Predicate, SegmentMatch, SegmentMatches}
use flaps.Domain.Rollout.{FlagEnvConfig, fixed, rollout, total}
use flaps.Compiler.Flag.{DomainVariants, Segments, compile_flag}
use flaps.Compiler.Segment.{compile_segment_match}
use flaps.Compiler.Meaning.Segments.{Decides, holds}
use flaps.Compiler.Meaning.Segments.Connectives.{NonEmpty, compile_segment_match-Decides}
use flaps.Compiler.Meaning.Serving.{EachNonEmpty}
use flaps.Compiler.Meaning.Choice.{AllWeighted, IsWeighted, reason_of}
use flaps.Compiler.Meaning.Flags.{serves, compile_flag-serves, compile_flag-disabled}
use flaps.Compiler.Environment.{FlagConfig, environments_referencing_segment}
use flaps.Compiler.Environment.Uses.{In, Mentions, environments_referencing_segment_iff}
use flaps.Prelude.{List, ◌↔◌, ◌≢◌}
use flaps.Examples.Stubs.{integers, plain_versions}

abbrev by_mail : SegmentMatch integers.Number
by_mail = SegmentMatch.predicate (record {
  attribute = "email";
  operator = Segment.ends_with;
  values = string "@staff.org" ∷ [];
})

abbrev beta : SegmentMatch integers.Number
beta =
    SegmentMatch.predicate
      (record { attribute = "group"; operator = Segment.equals; values = string "beta" ∷ [] })

abbrev pub staff : SegmentMatch integers.Number
staff = SegmentMatch.and (Segment.cons by_mail (Segment.cons (SegmentMatch.not beta) Segment.nil))

abbrev segments : Segments
segments = ("staff", staff) ∷ []

abbrev pub domain : DomainVariants
domain = record {
  value_type = ValueType.string;
  entries = ("blue", VariantValue.string "#00f") ∷ ("red", VariantValue.string "#f00") ∷ [];
}

abbrev pub config : Bool → FlagEnvConfig
config on = record {
  enabled = on;
  rules = record { segments = "staff" ∷ []; serve = fixed "red" } ∷ [];
  default_rule =
      rollout
        (record { variant = "red"; weight = 25 } ∷ record { variant = "blue"; weight = 75 } ∷ []);
}

abbrev staff_rule : Rule integers.F64
staff_rule = Rule.and (
    Targeting.of_list (
      Rule.ends_with (Rule.var "email" none) (Rule.literal (Literal.string "@staff.org"))
      ∷ Rule.not (Rule.eq (Rule.var "group" none) (Rule.literal (Literal.string "beta")))
      ∷ []))

abbrev compiled : Model.State → FlagOf
compiled state = record {
  state = state;
  variants = Model.Variants.string (("blue", "#00f") ∷ ("red", "#f00") ∷ []);
  default_variant = none;
  targeting = some (
      Rule.if_chain (
        Targeting.of_list (
          staff_rule
          ∷ Rule.literal (Literal.string "red")
          ∷ Rule.fractional (
              record { variant = "red"; weight = 25 }
              ∷ record { variant = "blue"; weight = 75 }
              ∷ [])
          ∷ [])));
  metadata = [];
}

abbrev set : Model.State → FlagSetOf
set state = record { flags = ("header", compiled state) ∷ []; metadata = [] }

abbrev context : ContextOf
context = record {
  targeting_key = some "user:abc";
  attributes = ("email", string "eve@staff.org") ∷ ("group", string "alpha") ∷ [];
  timestamp = 0;
}

staff-compiles : compile_segment_match staff ≡ ok staff_rule
unfolding compile_segment_match
staff-compiles = refl

compile_segment_match-Decides_example :
    Decides staff_rule
      (object (field "email" (string "eve@staff.org") end))
      (holds staff (object (field "email" (string "eve@staff.org") end)))
compile_segment_match-Decides_example =
    compile_segment_match-Decides staff (object (field "email" (string "eve@staff.org") end))
      (unfold NonEmpty in (tt, (tt, tt))) staff-compiles

enabled-compiles :
    compile_flag "header" domain (config true) segments [] ≡ ok (compiled Model.State.enabled)
unfolding compile_flag Variant.contains Map.get Map.insert compile_segment_match
enabled-compiles = refl

disabled-compiles :
    compile_flag "header" domain (config false) segments [] ≡ ok (compiled Model.State.disabled)
unfolding compile_flag Variant.contains Map.get Map.insert compile_segment_match
disabled-compiles = refl

compile_flag-serves_example :
    (v : String) × (value : JsonValue) × (serves "header" (config true) segments context ≡ some v)
    × (variant_value (compiled Model.State.enabled).variants v ≡ some value)
    × (evaluate (set Model.State.enabled) "header" context
        ≡ ok (record {
          value = some value;
          variant = some v;
          reason = reason_of (config true).rules (config true).default_rule;
          metadata =
              Map.extend (set Model.State.enabled).metadata (compiled Model.State.enabled).metadata;
        }))
compile_flag-serves_example =
    compile_flag-serves "header" domain (config true) segments [] (compiled Model.State.enabled)
      (set Model.State.enabled) context enabled-compiles (unfold Map.get in refl)
      (unfold EachNonEmpty in ((tt, (tt, tt)), tt)) (unfold AllWeighted in (tt, tt))
      (unfold IsWeighted total in omega arith) refl

compile_flag-disabled_example :
    evaluate (set Model.State.disabled) "header" context
    ≡ ok (record {
      value = none;
      variant = none;
      reason = Reason.disabled;
      metadata =
          Map.extend (set Model.State.disabled).metadata (compiled Model.State.disabled).metadata;
    })
compile_flag-disabled_example =
    compile_flag-disabled "header" domain (config false) segments [] (compiled Model.State.disabled)
      (set Model.State.disabled) context disabled-compiles (unfold Map.get in refl) refl

-- {"$evaluators": {"a": {"==": [{"var": "group"}, "beta"]}},
--  "flags": {"f": {"state": "ENABLED", "variants": {"red": "#f00"}, "targeting": {"if": [{"$ref": "a"}, "red"]}}}}
abbrev in_beta : JsonValue
in_beta = object (
    field "=="
      (array (Json.of_items (object (field "var" (string "group") end) ∷ string "beta" ∷ []))) end)

abbrev in_beta_or_not : JsonValue
in_beta_or_not = object (
    field "if" (array (Json.of_items (object (field "$ref" (string "a") end) ∷ string "red" ∷ [])))
      end)

abbrev flag_document : JsonValue
flag_document = object (
    field "state" (string "ENABLED") (
      field "variants" (object (field "red" (string "#f00") end))
        (field "targeting" in_beta_or_not end)))

abbrev read : String → Option JsonValue
read text = some (
    object (
      field "$evaluators" (object (field "a" in_beta end))
        (field "flags" (object (field "f" flag_document end)) end)))

abbrev parsed_set : FlagSetOf
parsed_set = record {
  flags =
      (
        "f",
        record {
          state = Model.State.enabled;
          variants = Model.Variants.string (("red", "#f00") ∷ []);
          default_variant = none;
          targeting = some (
              Rule.if_chain (
                Targeting.of_list (
                  Rule.eq (Rule.var "group" none) (Rule.literal (Literal.string "beta"))
                  ∷ Rule.literal (Literal.string "red")
                  ∷ [])));
          metadata = [];
        },
      )
      ∷ [];
  metadata = [];
}

from_json-Ensures_example : Ensures SetResolved (from_json read "{..}")
from_json-Ensures_example = from_json-Ensures read "{..}"

document-parses : from_json read "{..}" ≡ ok parsed_set
unfolding from_json flag_set reference rule flag targeting_of collect state variants
    optional_metadata operation choose arms binary variadic rules Map.get Map.insert is_resolving
document-parses = refl

evaluate-outcomes_example :
    ((Map.get "f" parsed_set.flags ≡ none)
      × (evaluate parsed_set "f" context ≡ err (flag_not_found "f")))
    ⊎ ((flag : FlagOf) × (Map.get "f" parsed_set.flags ≡ some flag)
        × (((r : ResolutionOf) × (evaluate parsed_set "f" context ≡ ok r))
            ⊎ ((v : JsonValue) × (evaluate parsed_set "f" context ≡ err (invalid_variant "f" v)))))
evaluate-outcomes_example = evaluate-outcomes read "{..}" parsed_set "f" context document-parses

abbrev environments : BTreeMap (List FlagConfig)
environments =
    ("production", [])
    ∷ (
      "staging",
      record { key = "header"; variants = domain; metadata = []; config = config true } ∷ [],
    )
    ∷ []

environments_referencing_segment_iff_example :
    In "staging" (environments_referencing_segment "staff" environments)
    ↔ ((flags : List FlagConfig) × In ("staging", flags) environments × Mentions "staff" flags)
environments_referencing_segment_iff_example =
    environments_referencing_segment_iff "staff" "staging" environments

abbrev colours : List (String × VariantValue integers.F64 integers.Number)
colours = ("red", VariantValue.string "#f00") ∷ ("blue", VariantValue.string "#00f") ∷ []

new_iff_example :
    (Variant.new ValueType.string colours
      ≡ ok (record { value_type = ValueType.string; entries = Map.extend [] colours }))
    ↔ ((Map.extend [] colours ≢ []) × All (HasType ValueType.string) (Map.extend [] colours))
new_iff_example = new_iff ValueType.string colours
