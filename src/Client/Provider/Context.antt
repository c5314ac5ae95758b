-- ===== src/Client/Provider/Context.antt =====
-- crates/flaps-client/src/context_mapper.rs: what the evaluator is given of a context of the crate `open_feature`. The clock and
-- the moment of a date are arguments.
use flaps.Prelude.{ℕ, String, Bool, Option, none, some, List, [], ◌∷◌, Result, ok, err, ◌>>=◌}
use flaps.Prelude.Int.{ℤ}
use flaps.Prelude.Map
use flaps.Prelude.Map.{BTreeMap}
use flaps.Json
use flaps.Json.{Value, Items, nil, cons, Fields, end}
use flaps.Numbers.{Numbers}
use flaps.Eval.Coerce.{JsonValue}
use flaps.Eval.Evaluate.{ContextOf}
use flaps.Client.Provider.Errors.{EvaluationErrorCode, invalid_context}

-- `open_feature::Value` and `StructValue`, whose fields are in the order in which its map is walked.
mutual
  pub data OpenFeatureValue (F : Type 0) : Type 0 where
    bool : Bool → OpenFeatureValue F
    int : ℤ → OpenFeatureValue F
    float : F → OpenFeatureValue F
    string : String → OpenFeatureValue F
    array : ValueItems F → OpenFeatureValue F
    struct_of : StructValue F → OpenFeatureValue F

  pub data ValueItems (F : Type 0) : Type 0 where
    no_items : ValueItems F
    item : OpenFeatureValue F → ValueItems F → ValueItems F

  pub data StructValue (F : Type 0) : Type 0 where
    no_fields : StructValue F
    add_field : String → OpenFeatureValue F → StructValue F → StructValue F

-- What `downcast_ref` finds behind `Arc<dyn Any>`.
pub data Opaque (F N : Type 0) : Type 0 where
  struct_value : StructValue F → Opaque F N
  value : OpenFeatureValue F → Opaque F N
  json : Value N → Opaque F N
  unknown : Opaque F N

-- `EvaluationContextFieldValue`; a date by its `unix_timestamp`.
pub data FieldValue (F N : Type 0) : Type 0 where
  bool : Bool → FieldValue F N
  int : ℤ → FieldValue F N
  float : F → FieldValue F N
  string : String → FieldValue F N
  date_time : ℤ → FieldValue F N
  struct_field : Opaque F N → FieldValue F N

-- `open_feature::EvaluationContext`, its fields in the order in which its map is walked.
pub record OpenFeatureContext (F N : Type 0) : Type 0 where
  pub targeting_key : Option String
  pub custom_fields : List (String × FieldValue F N)

module _ ⦃num : Numbers⦄ where
  unfoldable pub number_or_null : Option num.Number → JsonValue
  number_or_null none = Value.null
  number_or_null (some n) = Value.number n

  unfoldable mutual
    unfolding number_or_null

    pub open_feature_value_to_json : OpenFeatureValue num.F64 → JsonValue
    open_feature_value_to_json (OpenFeatureValue.bool b) = Value.bool b
    open_feature_value_to_json (OpenFeatureValue.int i) = Value.number (num.of_i64 i)
    open_feature_value_to_json (OpenFeatureValue.float f) = number_or_null (num.from_f64 f)
    open_feature_value_to_json (OpenFeatureValue.string s) = Value.string s
    open_feature_value_to_json (OpenFeatureValue.array vs) = Value.array (items_to_json vs)
    open_feature_value_to_json (OpenFeatureValue.struct_of fs) =
        Value.object (struct_value_to_json fs)

    pub items_to_json : ValueItems num.F64 → Items num.Number
    items_to_json no_items = nil
    items_to_json (item v vs) = cons (open_feature_value_to_json v) (items_to_json vs)

    -- The object's fields, collected into a map; their keys differ.
    pub struct_value_to_json : StructValue num.F64 → Fields num.Number
    struct_value_to_json no_fields = end
    struct_value_to_json (add_field key v fs) =
        Json.insert key (open_feature_value_to_json v) (struct_value_to_json fs)

  unfoldable pub struct_field_to_json :
      Opaque num.F64 num.Number → Result EvaluationErrorCode JsonValue
  unfolding open_feature_value_to_json struct_value_to_json
  struct_field_to_json (struct_value fs) = ok (Value.object (struct_value_to_json fs))
  struct_field_to_json (value v) = ok (open_feature_value_to_json v)
  struct_field_to_json (json v) = ok v
  struct_field_to_json unknown = err invalid_context

  unfoldable pub finite_or_none : Option num.Number → Option JsonValue
  finite_or_none none = none
  finite_or_none (some n) = some (Value.number n)

  -- `none` is a field that is left out.
  unfoldable pub field_to_json :
      FieldValue num.F64 num.Number → Result EvaluationErrorCode (Option JsonValue)
  unfolding finite_or_none struct_field_to_json
  field_to_json (FieldValue.bool b) = ok (some (Value.bool b))
  field_to_json (FieldValue.int i) = ok (some (Value.number (num.of_i64 i)))
  field_to_json (FieldValue.float f) = ok (finite_or_none (num.from_f64 f))
  field_to_json (FieldValue.string s) = ok (some (Value.string s))
  field_to_json (FieldValue.date_time t) = ok (some (Value.number (num.of_i64 t)))
  field_to_json (FieldValue.struct_field opaque) = do v ← struct_field_to_json opaque; ok (some v)

  unfoldable pub insert_if : String → Option JsonValue → BTreeMap JsonValue → BTreeMap JsonValue
  insert_if key none attributes = attributes
  insert_if key (some v) attributes = Map.insert key v attributes

  unfoldable pub attributes_of :
      List (String × FieldValue num.F64 num.Number)
      → BTreeMap JsonValue
      → Result EvaluationErrorCode (BTreeMap JsonValue)
  unfolding field_to_json insert_if
  attributes_of [] attributes = ok attributes
  attributes_of ((key, v) ∷ fields) attributes = do
    found ← field_to_json v
    attributes_of fields (insert_if key found attributes)

  unfoldable pub map_context :
      ℕ → OpenFeatureContext num.F64 num.Number → Result EvaluationErrorCode ContextOf
  unfolding attributes_of
  map_context now context = do
    attributes ← attributes_of context.custom_fields []
    ok (record { targeting_key = context.targeting_key; attributes = attributes; timestamp = now })
