-- ===== src/Eval/Parse/Values.antt =====
-- `state`, `variants` and `metadata` of crates/flaps-eval/src/parse.rs.
use flaps.Prelude.{String, Bool, Option, none, some, [], ◌∷◌, ok, err, ◌>>=◌, ◌==◌, if◌then◌else◌}
use flaps.Prelude.Map
use flaps.Prelude.Map.{BTreeMap}
use flaps.Json
use flaps.Json.{Value, Fields, null, bool, number, string, array, object}
use flaps.Numbers.{Numbers}
use flaps.Eval.Coerce.{JsonValue}
use flaps.Eval.Model.{State, MetadataValue, Metadata, Variants, VariantsOf}
use flaps.Eval.Parse.Errors.{Parsed, invalid, mixed_variant_types, at_name}

-- `for (key, value) in entries { map.insert(key.clone(), f(key, value)?); }`
unfoldable pub collect {ℓ κ} :
    {A : Type ℓ} {B : Type κ}
    → (String → A → Parsed B)
    → BTreeMap B
    → BTreeMap A
    → Parsed (BTreeMap B)
collect f m [] = ok m
collect f m ((k, a) ∷ rest) = do b ← f k a; collect f (Map.insert k b m) rest

module _ ⦃num : Numbers⦄ where
  unfoldable pub state : String → Option JsonValue → Parsed State
  state path (some (string name)) =
      if name == "ENABLED"
      then ok State.enabled
      else if name == "DISABLED"
      then ok State.disabled
      else invalid path "`state` must be \"ENABLED\" or \"DISABLED\""
  state path (some v) = invalid path "`state` must be \"ENABLED\" or \"DISABLED\""
  state path none = invalid path "missing required `state` property"

  -- One variant of each kind.
  unfoldable pub bool_variant : String → String → JsonValue → Parsed Bool
  bool_variant flag_key name (bool b) = ok b
  bool_variant flag_key name v = err (mixed_variant_types flag_key)

  unfoldable pub string_variant : String → String → JsonValue → Parsed String
  string_variant flag_key name (string s) = ok s
  string_variant flag_key name v = err (mixed_variant_types flag_key)

  unfoldable pub float_at : String → String → Option num.F64 → Parsed num.F64
  float_at path reason none = invalid path reason
  float_at path reason (some x) = ok x

  unfoldable pub number_variant : String → String → String → JsonValue → Parsed num.F64
  unfolding float_at
  number_variant path flag_key name (number n) =
      float_at (at_name path name) "numeric variant does not fit a 64 bit float" (num.as_f64 n)
  number_variant path flag_key name v = err (mixed_variant_types flag_key)

  unfoldable pub object_variant : String → String → JsonValue → Parsed (Fields num.Number)
  object_variant flag_key name (object fs) = ok fs
  object_variant flag_key name v = err (mixed_variant_types flag_key)

  -- The first value settles the kind.
  unfoldable pub variants_of : String → String → BTreeMap JsonValue → Parsed VariantsOf
  unfolding bool_variant string_variant number_variant object_variant collect
  variants_of path flag_key [] = ok (Variants.boolean [])
  variants_of path flag_key ((k, bool b) ∷ rest) = do
    m ← collect (bool_variant flag_key) [] ((k, bool b) ∷ rest)
    ok (Variants.boolean m)
  variants_of path flag_key ((k, string s) ∷ rest) = do
    m ← collect (string_variant flag_key) [] ((k, string s) ∷ rest)
    ok (Variants.string m)
  variants_of path flag_key ((k, number n) ∷ rest) = do
    m ← collect (number_variant path flag_key) [] ((k, number n) ∷ rest)
    ok (Variants.number m)
  variants_of path flag_key ((k, object fs) ∷ rest) = do
    m ← collect (object_variant flag_key) [] ((k, object fs) ∷ rest)
    ok (Variants.object m)
  variants_of path flag_key ((k, v) ∷ rest) =
      invalid path "variant values must be booleans, strings, numbers or objects"

  unfoldable pub variants : String → String → Option JsonValue → Parsed VariantsOf
  unfolding variants_of
  variants path flag_key none = invalid path "missing required `variants` property"
  variants path flag_key (some (object fs)) = variants_of path flag_key (Json.entries fs)
  variants path flag_key (some v) = invalid path "`variants` must be an object"

  unfoldable pub metadata_entry : String → String → JsonValue → Parsed (MetadataValue num.F64)
  unfolding float_at
  metadata_entry path key (bool b) = ok (MetadataValue.bool b)
  metadata_entry path key (string s) = ok (MetadataValue.string s)
  metadata_entry path key (number n) = do
    x ← float_at (at_name path key) "numeric metadata does not fit a 64 bit float" (num.as_f64 n)
    ok (MetadataValue.number x)
  metadata_entry path key v =
      invalid (at_name path key) "metadata values must be booleans, strings or numbers"

  unfoldable pub metadata : String → JsonValue → Parsed Metadata
  unfolding metadata_entry collect
  metadata path (object fs) = collect (metadata_entry path) [] (Json.entries fs)
  metadata path v = invalid path "`metadata` must be an object"

  unfoldable pub optional_metadata : String → Option JsonValue → Parsed Metadata
  unfolding metadata
  optional_metadata path none = ok []
  optional_metadata path (some v) = metadata path v
