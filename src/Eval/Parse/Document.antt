-- ===== src/Eval/Parse/Document.antt =====
-- `flag_set`, `flag`, `reference` and `standalone_rule` of crates/flaps-eval/src/parse.rs, and
-- `FlagSet::from_json` of crates/flaps-eval/src/model.rs.
use flaps.Prelude.{
  ℕ, zero, suc, String, Bool, false, ◌||◌, Option, none, some, List, [], ◌∷◌, ok, err, ◌>>=◌, ok_or,
  ◌==◌, length, if◌then◌else◌,
}
use flaps.Prelude.Map
use flaps.Prelude.Map.{BTreeMap}
use flaps.Json
use flaps.Json.{Value, Fields, null, string, object, end}
use flaps.Numbers.{Numbers}
use flaps.Eval.Targeting.{Rule}
use flaps.Eval.Coerce.{JsonValue}
use flaps.Eval.Model.{FlagOf, FlagSetOf}
use flaps.Eval.Parse.Errors.{
  Parsed, json, out_of_fuel, invalid, unknown_evaluator, evaluator_cycle, at_name,
}
use flaps.Eval.Parse.Rule.{rule}
use flaps.Eval.Parse.Values.{collect, state, variants, optional_metadata}

-- `resolving.iter().any(|resolving| resolving == name)`
unfoldable pub is_resolving : String → List String → Bool
is_resolving name [] = false
is_resolving name (other ∷ rest) = other == name || is_resolving name rest

module _ ⦃num : Numbers⦄ where
  -- The names on the stack are pushed in front. A call goes one name deeper; the fuel bounds how deep.
  unfoldable pub reference :
      ℕ → BTreeMap JsonValue → List String → String → String → Parsed (Rule num.F64)
  unfolding is_resolving
  reference zero evaluators resolving path name = err out_of_fuel
  reference (suc fuel) evaluators resolving path name =
      let resolved = do
        definition ← ok_or (Map.get name evaluators) (unknown_evaluator path name)
        rule (reference fuel evaluators (name ∷ resolving)) definition (at_name "$evaluators" name)
      in if is_resolving name resolving then err (evaluator_cycle name) else resolved

  -- A standalone rule keeps its references.
  unfoldable pub keep_reference : String → String → Parsed (Rule num.F64)
  keep_reference path name = ok (Rule.ref name)

  unfoldable pub standalone_rule : String → JsonValue → Parsed (Rule num.F64)
  unfolding keep_reference
  standalone_rule path v = rule keep_reference v path

  unfoldable pub is_flag_property : String → Bool
  is_flag_property name =
      name == "state"
      || name == "variants"
      || name == "defaultVariant"
      || name == "targeting"
      || name == "metadata"

  unfoldable pub check_properties : String → BTreeMap JsonValue → Parsed (Unit {0})
  unfolding is_flag_property
  check_properties path [] = ok tt
  check_properties path ((name, v) ∷ rest) =
      let others = check_properties path rest in
      if is_flag_property name then others else invalid (at_name path name) "unknown flag property"

  unfoldable pub default_variant_of : String → Option JsonValue → Parsed (Option String)
  default_variant_of path none = ok none
  default_variant_of path (some null) = ok none
  default_variant_of path (some (string name)) = ok (some name)
  default_variant_of path (some v) = invalid path "`defaultVariant` must be a string"

  unfoldable pub targeting_of :
      (String → String → Parsed (Rule num.F64))
      → String
      → Option JsonValue
      → Parsed (Option (Rule num.F64))
  targeting_of resolve path none = ok none
  targeting_of resolve path (some (object end)) = ok none
  targeting_of resolve path (some v) = do r ← rule resolve v path; ok (some r)

  unfoldable pub flag :
      (String → String → Parsed (Rule num.F64)) → String → String → JsonValue → Parsed FlagOf
  unfolding check_properties default_variant_of targeting_of
  flag resolve path key (object fs) = do
    checked ← check_properties path (Json.entries fs)
    s ← state (at_name path "state") (Json.get_field "state" fs)
    vs ← variants (at_name path "variants") key (Json.get_field "variants" fs)
    d ← default_variant_of (at_name path "defaultVariant") (Json.get_field "defaultVariant" fs)
    t ← targeting_of resolve (at_name path "targeting") (Json.get_field "targeting" fs)
    m ← optional_metadata (at_name path "metadata") (Json.get_field "metadata" fs)
    ok (record { state = s; variants = vs; default_variant = d; targeting = t; metadata = m })
  flag resolve path key v = invalid path "a flag must be an object"

  unfoldable pub evaluators_of : Option JsonValue → Parsed (BTreeMap JsonValue)
  evaluators_of none = ok []
  evaluators_of (some (object fs)) = ok (Json.entries fs)
  evaluators_of (some v) = invalid "$evaluators" "`$evaluators` must be an object"

  unfoldable pub flags_of : Option JsonValue → Parsed (BTreeMap JsonValue)
  flags_of none = invalid "$" "missing required `flags` property"
  flags_of (some (object fs)) = ok (Json.entries fs)
  flags_of (some v) = invalid "flags" "`flags` must be an object"

  -- The resolving names are distinct and declared, so one more than the declarations is enough fuel.
  unfoldable pub flag_set : JsonValue → Parsed FlagSetOf
  unfolding evaluators_of flags_of
  flag_set (object root) = do
    evaluators ← evaluators_of (Json.get_field "$evaluators" root)
    entries ← flags_of (Json.get_field "flags" root)
    flags ←
        collect
          (λ key v.
            flag (reference (suc (length evaluators)) evaluators []) (at_name "flags" key) key v)
          [] entries
    m ← optional_metadata "metadata" (Json.get_field "metadata" root)
    ok (record { flags = flags; metadata = m })
  flag_set v = invalid "$" "the document root must be an object"

  -- The parser of the text is that of the crate `serde_json`.
  unfoldable pub from_json : (String → Option JsonValue) → String → Parsed FlagSetOf
  from_json parse_text document = do v ← ok_or (parse_text document) json; flag_set v
