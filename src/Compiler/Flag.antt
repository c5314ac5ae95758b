-- ===== src/Compiler/Flag.antt =====
-- crates/flaps-compiler/src/flag_compiler.rs: one flag in one environment.
use flaps.Prelude.{
  String, Bool, true, Option, none, some, List, [], ◌∷◌, ok, err, ◌>>=◌, ◌>>◌, ok_or, if◌then◌else◌,
}
use flaps.Prelude.Map
use flaps.Prelude.Map.{BTreeMap}
use flaps.Json.{Fields}
use flaps.Json
use flaps.Numbers.{Numbers}
use flaps.Eval.Targeting
use flaps.Eval.Targeting.{Rule, Rules, Literal, Bucket}
use flaps.Eval.Model
use flaps.Eval.Model.{FlagOf, Metadata, VariantsOf}
use flaps.Domain.Errors.{ValueType}
use flaps.Domain.Variant
use flaps.Domain.Variant.{VariantValue, contains}
use flaps.Domain.Rollout.{
  WeightedVariant, ServeTarget, fixed, rollout, TargetingRule, FlagEnvConfig,
}
use flaps.Domain.Segment.{SegmentMatch}
use flaps.Compiler.Errors.{
  Compiled, unknown_segment, unknown_variant, object_variant_not_object, variant_type_mismatch,
  invalid_variant_value,
}
use flaps.Compiler.Segment.{compile_segment_match}

-- A serve target names only variants that the flag declares.
unfoldable pub validate_weights :
    {F N : Type 0} → String → List WeightedVariant → Variant.Variants F N → Compiled (Unit {0})
validate_weights flag [] domain = ok tt
validate_weights flag (w ∷ ws) domain =
    let others = validate_weights flag ws domain in
    if contains domain w.variant then others else err (unknown_variant flag w.variant)

unfoldable pub validate_serve_target :
    {F N : Type 0} → String → ServeTarget → Variant.Variants F N → Compiled (Unit {0})
unfolding validate_weights
validate_serve_target flag (fixed v) domain =
    if contains domain v then ok tt else err (unknown_variant flag v)
validate_serve_target flag (rollout ws) domain = validate_weights flag ws domain

unfoldable pub validate_rules :
    {F N : Type 0} → String → List TargetingRule → Variant.Variants F N → Compiled (Unit {0})
unfolding validate_serve_target
validate_rules flag [] domain = ok tt
validate_rules flag (r ∷ rs) domain = do
  validate_serve_target flag r.serve domain
  validate_rules flag rs domain

-- `for (k, v) in entries { match v { .. => map.insert(k, ..), _ => return Err(..) } }`
unfoldable pub collect {ℓ κ} :
    {A : Type ℓ} {B : Type κ}
    → (String → A → Compiled B)
    → BTreeMap B
    → BTreeMap A
    → Compiled (BTreeMap B)
collect f m [] = ok m
collect f m ((k, a) ∷ rest) = do b ← f k a; collect f (Map.insert k b m) rest

unfoldable pub buckets_of : List WeightedVariant → List Bucket
buckets_of [] = []
buckets_of (w ∷ ws) = record { variant = w.variant; weight = w.weight } ∷ buckets_of ws

unfoldable pub fixed_variant : ServeTarget → Option String
fixed_variant (fixed v) = some v
fixed_variant (rollout ws) = none

module _ ⦃num : Numbers⦄ where
  abbrev pub DomainVariants : Type 0
  DomainVariants = Variant.Variants num.F64 num.Number

  abbrev pub DomainValue : Type 0
  DomainValue = VariantValue num.F64 num.Number

  compile_metadata_value : Model.MetadataValue num.F64 → Model.MetadataValue num.F64
  compile_metadata_value (Model.MetadataValue.bool b) = Model.MetadataValue.bool b
  compile_metadata_value (Model.MetadataValue.string s) = Model.MetadataValue.string s
  compile_metadata_value (Model.MetadataValue.number x) = Model.MetadataValue.number x

  -- The domain's metadata are those of the evaluator, type for type.
  unfoldable pub compile_metadata : Metadata → Metadata
  unfolding compile_metadata_value
  compile_metadata [] = []
  compile_metadata ((k, v) ∷ m) = (k, compile_metadata_value v) ∷ compile_metadata m

  -- A number goes through JSON and back, and a float that JSON cannot hold is refused there.
  unfoldable pub extract_number : String → Option num.F64 → Compiled DomainValue
  extract_number flag none = err (invalid_variant_value flag)
  extract_number flag (some x) = ok (VariantValue.number x)

  unfoldable pub through_json : Option num.Number → Option num.F64
  through_json none = none
  through_json (some n) = num.as_f64 n

  unfoldable pub extract_value : String → String → DomainValue → Compiled DomainValue
  unfolding extract_number through_json
  extract_value flag key (VariantValue.number x) =
      extract_number flag (through_json (num.from_f64 x))
  extract_value flag key v = ok v

  unfoldable pub extract_entries : String → DomainVariants → Compiled (BTreeMap DomainValue)
  unfolding collect extract_value
  extract_entries flag domain = collect (extract_value flag) [] domain.entries

  unfoldable pub bool_entry : String → String → DomainValue → Compiled Bool
  bool_entry flag key (VariantValue.bool b) = ok b
  bool_entry flag key v = err (variant_type_mismatch flag key)

  unfoldable pub string_entry : String → String → DomainValue → Compiled String
  string_entry flag key (VariantValue.string s) = ok s
  string_entry flag key v = err (variant_type_mismatch flag key)

  unfoldable pub number_entry : String → String → DomainValue → Compiled num.F64
  number_entry flag key (VariantValue.number x) = ok x
  number_entry flag key v = err (variant_type_mismatch flag key)

  unfoldable pub object_entry : String → String → DomainValue → Compiled (Fields num.Number)
  object_entry flag key (VariantValue.json (Json.object fs)) = ok fs
  object_entry flag key v = err (object_variant_not_object flag key)

  unfoldable pub variants_of_type : ValueType → String → BTreeMap DomainValue → Compiled VariantsOf
  unfolding collect bool_entry string_entry number_entry object_entry
  variants_of_type ValueType.boolean flag entries = do
    m ← collect (bool_entry flag) [] entries
    ok (Model.Variants.boolean m)
  variants_of_type ValueType.string flag entries = do
    m ← collect (string_entry flag) [] entries
    ok (Model.Variants.string m)
  variants_of_type ValueType.number flag entries = do
    m ← collect (number_entry flag) [] entries
    ok (Model.Variants.number m)
  variants_of_type ValueType.object flag entries = do
    m ← collect (object_entry flag) [] entries
    ok (Model.Variants.object m)

  unfoldable pub compile_variants : String → DomainVariants → Compiled VariantsOf
  unfolding extract_entries variants_of_type
  compile_variants flag domain = do
    entries ← extract_entries flag domain
    variants_of_type domain.value_type flag entries

  -- The segments of an environment, by key.
  abbrev pub Segments : Type 0
  Segments = BTreeMap (SegmentMatch num.Number)

  unfoldable pub condition_rules : String → List String → Segments → Compiled (List (Rule num.F64))
  condition_rules flag [] segments = ok []
  condition_rules flag (key ∷ keys) segments = do
    m ← ok_or (Map.get key segments) (unknown_segment flag key)
    r ← compile_segment_match m
    rs ← condition_rules flag keys segments
    ok (r ∷ rs)

  unfoldable pub all_of : List (Rule num.F64) → Rule num.F64
  all_of [] = Rule.literal (Literal.bool true)
  all_of (r ∷ []) = r
  all_of rs = Rule.and (Targeting.of_list rs)

  unfoldable pub compile_condition : String → List String → Segments → Compiled (Rule num.F64)
  unfolding condition_rules all_of
  compile_condition flag keys segments = do rs ← condition_rules flag keys segments; ok (all_of rs)

  unfoldable pub compile_serve : ServeTarget → Rule num.F64
  unfolding buckets_of
  compile_serve (fixed v) = Rule.literal (Literal.string v)
  compile_serve (rollout ws) = Rule.fractional (buckets_of ws)

  -- The conditions and outcomes of the rules, and the default behind them.
  unfoldable pub compile_arms :
      String → List TargetingRule → ServeTarget → Segments → Compiled (Rules num.F64)
  unfolding compile_condition compile_serve
  compile_arms flag [] last segments = ok (Targeting.cons (compile_serve last) Targeting.nil)
  compile_arms flag (r ∷ rs) last segments = do
    condition ← compile_condition flag r.segments segments
    arms ← compile_arms flag rs last segments
    ok (Targeting.cons condition (Targeting.cons (compile_serve r.serve) arms))

  unfoldable pub no_rules : ServeTarget → Option (Rule num.F64) × Option String
  unfolding compile_serve
  no_rules (fixed v) = (none, some v)
  no_rules (rollout ws) = (some (compile_serve (rollout ws)), none)

  unfoldable pub targeting_with :
      String
      → List TargetingRule
      → ServeTarget
      → Segments
      → Compiled (Option (Rule num.F64) × Option String)
  unfolding no_rules compile_arms fixed_variant
  targeting_with flag [] last segments = ok (no_rules last)
  targeting_with flag (r ∷ rs) last segments = do
    arms ← compile_arms flag (r ∷ rs) last segments
    ok (some (Rule.if_chain arms), fixed_variant last)

  unfoldable pub compile_targeting :
      String → FlagEnvConfig → Segments → Compiled (Option (Rule num.F64) × Option String)
  unfolding targeting_with
  compile_targeting flag config segments =
      targeting_with flag config.rules config.default_rule segments

  unfoldable pub compile_flag :
      String → DomainVariants → FlagEnvConfig → Segments → Metadata → Compiled FlagOf
  unfolding compile_variants validate_rules compile_targeting compile_metadata
  compile_flag flag domain config segments metadata = do
    variants ← compile_variants flag domain
    validate_serve_target flag config.default_rule domain
    validate_rules flag config.rules domain
    compiled ← compile_targeting flag config segments
    ok (record {
      state = if config.enabled then Model.State.enabled else Model.State.disabled;
      variants = variants;
      default_variant = compiled.1;
      targeting = compiled.0;
      metadata = compile_metadata metadata;
    })
