-- ===== src/Eval/Serialize.antt =====
-- crates/flaps-eval/src/serialize.rs: the canonical JSON of a flag set, and `FlagSet::to_json`.
use flaps.Prelude.{String, ◌&&◌, Option, none, some, List, [], ◌∷◌, if◌then◌else◌}
use flaps.Prelude.Map.{BTreeMap}
use flaps.Json
use flaps.Json.{Fields, null, bool, number, string, array, object, end, field}
use flaps.Numbers.{Numbers}
use flaps.Eval.Targeting.{Rule, Rules, Literal, Bucket, SemVerOp, nil, cons}
use flaps.Eval.Coerce
use flaps.Eval.Coerce.{JsonValue}
use flaps.Eval.Model.{State, MetadataValue, Metadata, Variants, VariantsOf, FlagOf, FlagSetOf}

unfoldable pub sem_ver_symbol : SemVerOp → String
sem_ver_symbol SemVerOp.eq = "="
sem_ver_symbol SemVerOp.neq = "!="
sem_ver_symbol SemVerOp.lt = "<"
sem_ver_symbol SemVerOp.lte = "<="
sem_ver_symbol SemVerOp.gt = ">"
sem_ver_symbol SemVerOp.gte = ">="
sem_ver_symbol SemVerOp.caret_match = "^"
sem_ver_symbol SemVerOp.tilde_match = "~"

module _ ⦃num : Numbers⦄ where
  open num use {F64, is_finite, to_i64, from_i64, of_i64, of_u64}

  -- Whole numbers that go through `i64` unchanged are integers.
  unfoldable pub number_value : F64 → JsonValue
  number_value x =
      if is_finite x && num.eq (from_i64 (to_i64 x)) x
      then number (of_i64 (to_i64 x))
      else Coerce.number_or_null (num.from_f64 x)

  unfoldable pub literal_value : Literal F64 → JsonValue
  unfolding number_value
  literal_value Literal.null = null
  literal_value (Literal.bool b) = bool b
  literal_value (Literal.number x) = number_value x
  literal_value (Literal.string s) = string s

  abbrev pub op_scalar : String → JsonValue → JsonValue
  op_scalar name v = object (field name v end)

  abbrev pub op_value : String → List JsonValue → JsonValue
  op_value name args = op_scalar name (array (Json.of_items args))

  bucket_value : Bucket → JsonValue
  bucket_value b =
      array (Json.cons (string b.variant) (Json.cons (number (of_u64 b.weight)) Json.nil))

  unfoldable pub bucket_values : List Bucket → List JsonValue
  unfolding bucket_value
  bucket_values [] = []
  bucket_values (b ∷ bs) = bucket_value b ∷ bucket_values bs

  var_value : String → Option (Literal F64) → JsonValue
  unfolding literal_value
  var_value path none = op_scalar "var" (string path)
  var_value path (some default) = op_value "var" (string path ∷ literal_value default ∷ [])

  unfoldable mutual
    unfolding literal_value var_value sem_ver_symbol bucket_values

    pub rule_value : Rule F64 → JsonValue
    rule_value (Rule.literal l) = literal_value l
    rule_value (Rule.array rs) = array (Json.of_items (rule_values rs))
    rule_value (Rule.var path default) = var_value path default
    rule_value (Rule.missing rs) = op_value "missing" (rule_values rs)
    rule_value (Rule.missing_some n rs) =
        op_value "missing_some" (number (of_u64 n) ∷ array (Json.of_items (rule_values rs)) ∷ [])
    rule_value (Rule.if_chain rs) = op_value "if" (rule_values rs)
    rule_value (Rule.and rs) = op_value "and" (rule_values rs)
    rule_value (Rule.or rs) = op_value "or" (rule_values rs)
    rule_value (Rule.not r) = op_value "!" (rule_value r ∷ [])
    rule_value (Rule.truthy r) = op_value "!!" (rule_value r ∷ [])
    rule_value (Rule.eq a b) = op_value "==" (rule_value a ∷ rule_value b ∷ [])
    rule_value (Rule.strict_eq a b) = op_value "===" (rule_value a ∷ rule_value b ∷ [])
    rule_value (Rule.neq a b) = op_value "!=" (rule_value a ∷ rule_value b ∷ [])
    rule_value (Rule.strict_neq a b) = op_value "!==" (rule_value a ∷ rule_value b ∷ [])
    rule_value (Rule.gt a b) = op_value ">" (rule_value a ∷ rule_value b ∷ [])
    rule_value (Rule.gte a b) = op_value ">=" (rule_value a ∷ rule_value b ∷ [])
    rule_value (Rule.lt rs) = op_value "<" (rule_values rs)
    rule_value (Rule.lte rs) = op_value "<=" (rule_values rs)
    rule_value (Rule.add rs) = op_value "+" (rule_values rs)
    rule_value (Rule.sub rs) = op_value "-" (rule_values rs)
    rule_value (Rule.mul rs) = op_value "*" (rule_values rs)
    rule_value (Rule.div a b) = op_value "/" (rule_value a ∷ rule_value b ∷ [])
    rule_value (Rule.mod_rule a b) = op_value "%" (rule_value a ∷ rule_value b ∷ [])
    rule_value (Rule.min rs) = op_value "min" (rule_values rs)
    rule_value (Rule.max rs) = op_value "max" (rule_values rs)
    rule_value (Rule.cat rs) = op_value "cat" (rule_values rs)
    rule_value (Rule.substr rs) = op_value "substr" (rule_values rs)
    rule_value (Rule.in_rule a b) = op_value "in" (rule_value a ∷ rule_value b ∷ [])
    rule_value (Rule.merge rs) = op_value "merge" (rule_values rs)
    rule_value (Rule.map a b) = op_value "map" (rule_value a ∷ rule_value b ∷ [])
    rule_value (Rule.filter a b) = op_value "filter" (rule_value a ∷ rule_value b ∷ [])
    rule_value (Rule.reduce a b c) =
        op_value "reduce" (rule_value a ∷ rule_value b ∷ rule_value c ∷ [])
    rule_value (Rule.all a b) = op_value "all" (rule_value a ∷ rule_value b ∷ [])
    rule_value (Rule.none a b) = op_value "none" (rule_value a ∷ rule_value b ∷ [])
    rule_value (Rule.some a b) = op_value "some" (rule_value a ∷ rule_value b ∷ [])
    rule_value (Rule.starts_with a b) = op_value "starts_with" (rule_value a ∷ rule_value b ∷ [])
    rule_value (Rule.ends_with a b) = op_value "ends_with" (rule_value a ∷ rule_value b ∷ [])
    rule_value (Rule.sem_ver a op b) =
        op_value "sem_ver" (rule_value a ∷ string (sem_ver_symbol op) ∷ rule_value b ∷ [])
    rule_value (Rule.fractional bs) = op_value "fractional" (bucket_values bs)
    rule_value (Rule.fractional_by a bs) = op_value "fractional" (rule_value a ∷ bucket_values bs)
    rule_value (Rule.ref name) = op_scalar "$ref" (string name)

    pub rule_values : Rules F64 → List JsonValue
    rule_values nil = []
    rule_values (cons r rs) = rule_value r ∷ rule_values rs

  -- `for (key, value) in map { out.insert(key.clone(), f(value)); }`
  unfoldable pub to_fields {ℓ} :
      {A : Type ℓ} → (A → JsonValue) → Fields num.Number → BTreeMap A → Fields num.Number
  to_fields f out [] = out
  to_fields f out ((k, a) ∷ rest) = to_fields f (Json.insert k (f a) out) rest

  metadata_scalar : MetadataValue F64 → JsonValue
  unfolding number_value
  metadata_scalar (MetadataValue.bool b) = bool b
  metadata_scalar (MetadataValue.string s) = string s
  metadata_scalar (MetadataValue.number x) = number_value x

  -- Also `metadata_to_json`.
  unfoldable pub metadata_value : Metadata → JsonValue
  unfolding metadata_scalar to_fields
  metadata_value m = object (to_fields metadata_scalar end m)

  unfoldable pub variants_value : VariantsOf → JsonValue
  unfolding to_fields number_value
  variants_value (Variants.boolean m) = object (to_fields bool end m)
  variants_value (Variants.string m) = object (to_fields string end m)
  variants_value (Variants.number m) = object (to_fields number_value end m)
  variants_value (Variants.object m) = object (to_fields object end m)

  state_name : State → String
  state_name State.enabled = "ENABLED"
  state_name State.disabled = "DISABLED"

  insert_default : Option String → Fields num.Number → Fields num.Number
  insert_default none out = out
  insert_default (some name) out = Json.insert "defaultVariant" (string name) out

  insert_targeting : Option (Rule F64) → Fields num.Number → Fields num.Number
  insert_targeting none out = out
  insert_targeting (some r) out = Json.insert "targeting" (rule_value r) out

  insert_metadata : Metadata → Fields num.Number → Fields num.Number
  unfolding metadata_value
  insert_metadata [] out = out
  insert_metadata (e ∷ m) out = Json.insert "metadata" (metadata_value (e ∷ m)) out

  unfoldable pub flag_value : FlagOf → JsonValue
  unfolding state_name insert_default insert_targeting insert_metadata variants_value
  flag_value f = object (
      insert_metadata f.metadata (
        insert_targeting f.targeting (
          insert_default f.default_variant (
            Json.insert "variants" (variants_value f.variants)
              (Json.insert "state" (string (state_name f.state)) end)))))

  unfoldable pub flag_set_value : FlagSetOf → JsonValue
  unfolding flag_value insert_metadata to_fields
  flag_set_value s = object (
      insert_metadata s.metadata
        (Json.insert "flags" (object (to_fields flag_value end s.flags)) end))

  -- The printer of the text is that of the crate `serde_json`.
  unfoldable pub to_json : (JsonValue → String) → FlagSetOf → String
  unfolding flag_set_value
  to_json print_text s = print_text (flag_set_value s)
