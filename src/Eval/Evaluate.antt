-- ===== src/Eval/Evaluate.antt =====
-- `FlagSet::evaluate` of crates/flaps-eval/src/eval.rs.
pub mod Outcomes
use flaps.Prelude.{
  ℕ, String, Bool, true, false, Option, none, some, List, [], ◌∷◌, Result, ok, err, ◌>>=◌, ok_or,
}
use flaps.Prelude.Map
use flaps.Prelude.Map.{BTreeMap}
use flaps.Json
use flaps.Json.{Fields, null, bool, number, string, array, object, end, field}
use flaps.Numbers.{Numbers}
use flaps.Versions.{Versions}
use flaps.Eval.Targeting.{Rule}
use flaps.Eval.Coerce.{JsonValue, number_value}
use flaps.Eval.Errors.{Evaluated, flag_not_found, invalid_variant}
use flaps.Eval.Model.{State, Metadata, Variants, VariantsOf, FlagOf, FlagSetOf, boolean}
use flaps.Eval.Apply.{apply}

pub record EvaluationContext (N : Type 0) : Type 0 where
  pub targeting_key : Option String
  pub attributes : BTreeMap (Json.Value N)
  pub timestamp : ℕ

pub data Reason : Type 0 where
  static targeting_match default disabled : Reason

pub record Resolution (F N : Type 0) : Type 0 where
  pub value : Option (Json.Value N)
  pub variant : Option String
  pub reason : Reason
  pub metadata : BTreeMap (flaps.Eval.Model.MetadataValue F)

abbrev pub ContextOf : ⦃num : Numbers⦄ → Type 0
ContextOf ⦃num⦄ = EvaluationContext num.Number

abbrev pub ResolutionOf : ⦃num : Numbers⦄ → Type 0
ResolutionOf ⦃num⦄ = Resolution num.F64 num.Number

module _ ⦃num : Numbers⦄ where
  insert_key : Option String → Fields num.Number → Fields num.Number
  insert_key none scope = scope
  insert_key (some key) scope = Json.insert "targetingKey" (string key) scope

  -- `json!({ "flagKey": flag_key, "timestamp": context.timestamp })`
  flagd : String → ℕ → JsonValue
  flagd flag_key timestamp =
      object
        (field "flagKey" (string flag_key) (field "timestamp" (number (num.of_u64 timestamp)) end))

  unfoldable pub evaluation_scope : String → ContextOf → JsonValue
  unfolding insert_key flagd
  evaluation_scope flag_key context =
      let scope = Json.of_entries (Map.extend [] context.attributes) in
      object (
        Json.insert "$flagd" (flagd flag_key context.timestamp)
          (insert_key context.targeting_key scope))

  abbrev pub map_some {ℓ} : {A : Type ℓ} → (A → JsonValue) → Option A → Option JsonValue
  map_some f none = none
  map_some f (some a) = some (f a)

  unfoldable pub variant_value : VariantsOf → String → Option JsonValue
  variant_value (boolean m) name = map_some bool (Map.get name m)
  variant_value (Variants.string m) name = map_some string (Map.get name m)
  variant_value (Variants.number m) name = map_some number_value (Map.get name m)
  variant_value (Variants.object m) name = map_some object (Map.get name m)

  show_bool : Bool → String
  show_bool true = "true"
  show_bool false = "false"

  -- What the value of a targeting rule selects.
  unfoldable pub selected : String → Option String → JsonValue → Evaluated (Option String × Reason)
  unfolding show_bool
  selected flag_key default_variant (string name) = ok (some name, targeting_match)
  selected flag_key default_variant (bool b) = ok (some (show_bool b), targeting_match)
  selected flag_key default_variant null = ok (default_variant, default)
  selected flag_key default_variant other = err (invalid_variant flag_key other)

  -- The value of the variant that was chosen.
  unfoldable pub resolve :
      String → VariantsOf → Metadata → Option String × Reason → Evaluated ResolutionOf
  resolve flag_key variants metadata (none, reason) =
      ok (record { value = none; variant = none; reason = reason; metadata = metadata })
  resolve flag_key variants metadata (some variant, reason) =
      elim (variant_value variants variant) [
        | none ↦ err (invalid_variant flag_key (string variant))
        | some v ↦ ok (record {
          value = some v;
          variant = some variant;
          reason = reason;
          metadata = metadata;
        })
      ]

module _ ⦃num : Numbers⦄ ⦃ver : Versions⦄ where
  unfoldable pub choose_variant :
      String
      → Option String
      → Option (Rule num.F64)
      → ContextOf
      → Evaluated (Option String × Reason)
  unfolding selected evaluation_scope
  choose_variant flag_key default_variant none context = ok (default_variant, static)
  choose_variant flag_key default_variant (some rule) context = do
    v ← apply rule (evaluation_scope flag_key context)
    selected flag_key default_variant v

  unfoldable pub evaluate_flag :
      String → FlagOf → Metadata → State → ContextOf → Evaluated ResolutionOf
  unfolding choose_variant resolve
  evaluate_flag flag_key flag metadata State.disabled context =
      ok (record { value = none; variant = none; reason = Reason.disabled; metadata = metadata })
  evaluate_flag flag_key flag metadata State.enabled context = do
    chosen ← choose_variant flag_key flag.default_variant flag.targeting context
    resolve flag_key flag.variants metadata chosen

  unfoldable pub evaluate : FlagSetOf → String → ContextOf → Evaluated ResolutionOf
  unfolding evaluate_flag
  evaluate set flag_key context = do
    flag ← ok_or (Map.get flag_key set.flags) (flag_not_found flag_key)
    evaluate_flag flag_key flag (Map.extend set.metadata flag.metadata) flag.state context
