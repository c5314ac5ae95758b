-- ===== src/Client/Provider/Resolving.antt =====
-- The typed answers of crates/flaps-client/src/provider.rs, with coerce.rs, reason_mapper.rs and metadata_mapper.rs. The texts of
-- messages are left out.
use flaps.Prelude.{
  ℕ, String, Bool, ◌&&◌, Option, none, some, [], ◌∷◌, Result, ok, err, ◌>>=◌, ok_or, if◌then◌else◌,
}
use flaps.Prelude.Int.{ℤ}
use flaps.Prelude.Map.{BTreeMap}
use flaps.Json
use flaps.Json.{Value}
use flaps.Numbers.{Numbers}
use flaps.Versions.{Versions}
use flaps.Eval.Coerce.{JsonValue}
use flaps.Eval.Errors.{EvaluationError, flag_not_found, invalid_variant, unsupported_operation}
use flaps.Eval.Model.{MetadataValue, Metadata, FlagSetOf}
use flaps.Eval.Evaluate.{Reason, ResolutionOf, evaluate}
use flaps.Client.Sync.{ProviderShared}
use flaps.Client.Provider.Errors.{EvaluationErrorCode, provider_not_ready, type_mismatch, general}
use flaps.Client.Provider.Context.{OpenFeatureContext, map_context}

-- `EvaluationReason` and `FlagMetadataValue` of the crate `open_feature`.
pub data EvaluationReason : Type 0 where
  static targeting_match default disabled : EvaluationReason

pub data FlagMetadataValue (F : Type 0) : Type 0 where
  bool : Bool → FlagMetadataValue F
  int : ℤ → FlagMetadataValue F
  float : F → FlagMetadataValue F
  string : String → FlagMetadataValue F

pub record ResolutionDetails (F A : Type 0) : Type 0 where
  pub value : A
  pub variant : Option String
  pub reason : Option EvaluationReason
  pub flag_metadata : Option (BTreeMap (FlagMetadataValue F))

unfoldable pub map_reason : Reason → EvaluationReason
map_reason Reason.static = EvaluationReason.static
map_reason Reason.targeting_match = EvaluationReason.targeting_match
map_reason Reason.default = EvaluationReason.default
map_reason Reason.disabled = EvaluationReason.disabled

-- What the client uses of numbers and `Numbers` does not have: `as_i64`, and two floats, `I64_MIN_F64` and `I64_MAX_SAFE_F64`.
pub record Integers (F N : Type 0) : Type 0 where
  pub as_i64 : N → Option ℤ
  pub i64_min_f64 : F
  pub i64_max_safe_f64 : F

unfoldable pub error_code : {N : Type 0} → EvaluationError N → EvaluationErrorCode
error_code (flag_not_found key) = EvaluationErrorCode.flag_not_found
error_code (invalid_variant key resolved) = general "INVALID_VARIANT"
error_code (unsupported_operation operator) = general "UNSUPPORTED_OPERATION"

unfoldable pub map_err :
    {N A : Type 0} → Result (EvaluationError N) A → Result EvaluationErrorCode A
unfolding error_code
map_err (ok a) = ok a
map_err (err e) = err (error_code e)

module _ ⦃num : Numbers⦄ where
  unfoldable pub to_bool : JsonValue → Option Bool
  to_bool (Value.bool b) = some b
  to_bool v = none

  unfoldable pub to_float : JsonValue → Option num.F64
  to_float (Value.number n) = num.as_f64 n
  to_float v = none

  unfoldable pub to_string : JsonValue → Option String
  to_string v = Json.as_str v

  module _ (ints : Integers num.F64 num.Number) where
    unfoldable pub is_integer : num.F64 → Bool
    is_integer f =
        num.eq (num.fract f) (num.of_nat 0)
        && num.le ints.i64_min_f64 f
        && num.le f ints.i64_max_safe_f64

    unfoldable pub whole : Option num.F64 → Option ℤ
    unfolding is_integer
    whole none = none
    whole (some f) = if is_integer f then some (num.to_i64 f) else none

    unfoldable pub int_or_whole : Option ℤ → Option num.F64 → Option ℤ
    unfolding whole
    int_or_whole none f = whole f
    int_or_whole (some i) f = some i

    unfoldable pub to_int : JsonValue → Option ℤ
    unfolding int_or_whole
    to_int (Value.number n) = int_or_whole (ints.as_i64 n) (num.as_f64 n)
    to_int v = none

    unfoldable pub map_value : MetadataValue num.F64 → FlagMetadataValue num.F64
    unfolding is_integer
    map_value (MetadataValue.bool b) = FlagMetadataValue.bool b
    map_value (MetadataValue.string s) = FlagMetadataValue.string s
    map_value (MetadataValue.number f) =
        if is_integer f then FlagMetadataValue.int (num.to_i64 f) else FlagMetadataValue.float f

    unfoldable pub map_values : Metadata → BTreeMap (FlagMetadataValue num.F64)
    unfolding map_value
    map_values [] = []
    map_values ((key, v) ∷ metadata) = (key, map_value v) ∷ map_values metadata

    unfoldable pub map_metadata : Metadata → Option (BTreeMap (FlagMetadataValue num.F64))
    unfolding map_values
    map_metadata [] = none
    map_metadata (entry ∷ metadata) = some (map_values (entry ∷ metadata))

    unfoldable pub details :
        ResolutionOf
        → Option JsonValue
        → Result EvaluationErrorCode (ResolutionDetails num.F64 JsonValue)
    unfolding map_reason map_metadata
    details resolution none = err (general "DISABLED_OR_NO_VARIANT")
    details resolution (some v) = ok (record {
      value = v;
      variant = resolution.variant;
      reason = some (map_reason resolution.reason);
      flag_metadata = map_metadata resolution.metadata;
    })

    unfoldable pub typed :
        {A : Type 0}
        → (JsonValue → Option A)
        → ResolutionDetails num.F64 JsonValue
        → Result EvaluationErrorCode (ResolutionDetails num.F64 A)
    typed coerce found = do
      v ← ok_or (coerce found.value) type_mismatch
      ok (record {
        value = v;
        variant = found.variant;
        reason = found.reason;
        flag_metadata = found.flag_metadata;
      })

    module _ ⦃versions : Versions⦄ where
      unfoldable pub evaluate_loaded :
          ℕ
          → Option FlagSetOf
          → String
          → OpenFeatureContext num.F64 num.Number
          → Result EvaluationErrorCode (ResolutionDetails num.F64 JsonValue)
      unfolding details map_err map_context
      evaluate_loaded now none flag_key context = err provider_not_ready
      evaluate_loaded now (some set) flag_key context = do
        eval_ctx ← map_context now context
        resolution ← map_err (evaluate set flag_key eval_ctx)
        details resolution resolution.value

      unfoldable pub evaluate_raw :
          {Instant : Type 0}
          → ℕ
          → ProviderShared Instant
          → String
          → OpenFeatureContext num.F64 num.Number
          → Result EvaluationErrorCode (ResolutionDetails num.F64 JsonValue)
      unfolding evaluate_loaded
      evaluate_raw now shared flag_key context =
          evaluate_loaded now shared.flag_set flag_key context

      -- The common body of `resolve_bool_value` and its like, each with its coercion.
      unfoldable pub resolve_value :
          {Instant A : Type 0}
          → (JsonValue → Option A)
          → ℕ
          → ProviderShared Instant
          → String
          → OpenFeatureContext num.F64 num.Number
          → Result EvaluationErrorCode (ResolutionDetails num.F64 A)
      unfolding evaluate_raw typed
      resolve_value coerce now shared flag_key context = do
        found ← evaluate_raw now shared flag_key context
        typed coerce found

      unfoldable pub resolve_bool_value :
          {Instant : Type 0}
          → ℕ
          → ProviderShared Instant
          → String
          → OpenFeatureContext num.F64 num.Number
          → Result EvaluationErrorCode (ResolutionDetails num.F64 Bool)
      unfolding resolve_value to_bool
      resolve_bool_value now shared flag_key context =
          resolve_value to_bool now shared flag_key context

      unfoldable pub resolve_int_value :
          {Instant : Type 0}
          → ℕ
          → ProviderShared Instant
          → String
          → OpenFeatureContext num.F64 num.Number
          → Result EvaluationErrorCode (ResolutionDetails num.F64 ℤ)
      unfolding resolve_value to_int
      resolve_int_value now shared flag_key context =
          resolve_value to_int now shared flag_key context

      unfoldable pub resolve_float_value :
          {Instant : Type 0}
          → ℕ
          → ProviderShared Instant
          → String
          → OpenFeatureContext num.F64 num.Number
          → Result EvaluationErrorCode (ResolutionDetails num.F64 num.F64)
      unfolding resolve_value to_float
      resolve_float_value now shared flag_key context =
          resolve_value to_float now shared flag_key context

      unfoldable pub resolve_string_value :
          {Instant : Type 0}
          → ℕ
          → ProviderShared Instant
          → String
          → OpenFeatureContext num.F64 num.Number
          → Result EvaluationErrorCode (ResolutionDetails num.F64 String)
      unfolding resolve_value to_string
      resolve_string_value now shared flag_key context =
          resolve_value to_string now shared flag_key context
