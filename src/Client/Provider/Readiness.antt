-- ===== src/Client/Provider/Readiness.antt =====
-- The answers of a provider and its status.
use flaps.Prelude.{
  ℕ, ◌≡◌, ◌≢◌, ◌↔◌, refl, subst, String, Option, none, some, List, [], ◌∷◌, Result, ok, err, ◌>>=◌,
  ok_or, Bool-cases, inl, inr,
}
use flaps.Prelude.Map.{BTreeMap}
use flaps.Numbers.{Numbers}
use flaps.Versions.{Versions}
use flaps.Eval.Coerce.{JsonValue}
use flaps.Eval.Errors.{EvaluationError, invalid_variant, unsupported_operation}
use flaps.Eval.Model.{FlagSetOf}
use flaps.Eval.Evaluate.{ResolutionOf, evaluate}
use flaps.Client.Sync.{SyncState, ProviderShared}
use flaps.Client.Provider.{not_ready, status, loaded_status, status_of, is_stale}
use flaps.Client.Provider.Errors.{
  EvaluationErrorCode, provider_not_ready, type_mismatch, invalid_context, general,
}
use flaps.Client.Provider.Context.{
  OpenFeatureContext, FieldValue, Opaque, struct_value, value, json, unknown, struct_field_to_json,
  field_to_json, attributes_of, map_context, insert_if,
}
use flaps.Client.Provider.Resolving.{
  Integers, ResolutionDetails, map_err, error_code, details, typed, evaluate_loaded, evaluate_raw,
  resolve_value,
}

-- No error that says that the provider is not ready.
Answers : {A : Type 0} → Result EvaluationErrorCode A → Type 0
Answers (ok a) = Unit
Answers (err provider_not_ready) = ⊥
Answers (err other) = Unit

>>=-Answers :
    {A B : Type 0} (m : Result EvaluationErrorCode A) (f : A → Result EvaluationErrorCode B)
    → Answers m
    → ((a : A) → Answers (f a))
    → Answers (m >>= f)
unfolding Answers
>>=-Answers (ok a) f first next = next a
>>=-Answers (err provider_not_ready) f first next = first
>>=-Answers (err EvaluationErrorCode.flag_not_found) f first next = tt
>>=-Answers (err type_mismatch) f first next = tt
>>=-Answers (err invalid_context) f first next = tt
>>=-Answers (err (general code)) f first next = tt

Answers-ready :
    {A : Type 0} (m : Result EvaluationErrorCode A) → Answers m → m ≢ err provider_not_ready
unfolding Answers
Answers-ready m answers e = subst Answers e answers

module _ ⦃num : Numbers⦄ where
  struct-Answers : (opaque : Opaque num.F64 num.Number) → Answers (struct_field_to_json opaque)
  unfolding struct_field_to_json Answers
  struct-Answers (struct_value fs) = tt
  struct-Answers (value v) = tt
  struct-Answers (json v) = tt
  struct-Answers unknown = tt

  field-Answers : (v : FieldValue num.F64 num.Number) → Answers (field_to_json v)
  unfolding field_to_json Answers
  field-Answers (FieldValue.bool b) = tt
  field-Answers (FieldValue.int i) = tt
  field-Answers (FieldValue.float f) = tt
  field-Answers (FieldValue.string s) = tt
  field-Answers (FieldValue.date_time t) = tt
  field-Answers (FieldValue.struct_field opaque) =
      >>=-Answers (struct_field_to_json opaque) _ (struct-Answers opaque) (λ v. tt)

  attributes-Answers :
      (fields : List (String × FieldValue num.F64 num.Number)) (attributes : BTreeMap JsonValue)
      → Answers (attributes_of fields attributes)
  unfolding attributes_of Answers
  attributes-Answers [] attributes = tt
  attributes-Answers ((key, v) ∷ fields) attributes =
      >>=-Answers (field_to_json v) _ (field-Answers v)
        (λ found. attributes-Answers fields (insert_if key found attributes))

  evaluated-Answers :
      {A : Type 0} (result : Result (EvaluationError num.Number) A) → Answers (map_err result)
  unfolding map_err error_code Answers
  evaluated-Answers (ok a) = tt
  evaluated-Answers (err (EvaluationError.flag_not_found key)) = tt
  evaluated-Answers (err (invalid_variant key resolved)) = tt
  evaluated-Answers (err (unsupported_operation operator)) = tt

  details-Answers :
      (ints : Integers num.F64 num.Number) (resolution : ResolutionOf) (v : Option JsonValue)
      → Answers (details ints resolution v)
  unfolding details Answers
  details-Answers ints resolution none = tt
  details-Answers ints resolution (some v) = tt

  coerced-Answers : {A : Type 0} (found : Option A) → Answers (ok_or found type_mismatch)
  unfolding Answers
  coerced-Answers none = tt
  coerced-Answers (some a) = tt

  typed-Answers :
      {A : Type 0} (ints : Integers num.F64 num.Number) (coerce : JsonValue → Option A)
      (found : ResolutionDetails num.F64 JsonValue)
      → Answers (typed ints coerce found)
  unfolding typed Answers
  typed-Answers ints coerce found =
      >>=-Answers (ok_or (coerce found.value) type_mismatch) _
        (coerced-Answers (coerce found.value)) (λ v. tt)

  module _ ⦃versions : Versions⦄ (ints : Integers num.F64 num.Number) where
    loaded-Answers :
        (now : ℕ) (set : FlagSetOf) (key : String) (context : OpenFeatureContext num.F64 num.Number)
        → Answers (evaluate_loaded ints now (some set) key context)
    unfolding evaluate_loaded map_context Answers
    loaded-Answers now set key context =
        >>=-Answers (map_context now context) _
          (>>=-Answers (attributes_of context.custom_fields []) _
            (attributes-Answers context.custom_fields []) (λ a. tt))
          (λ c.
            >>=-Answers (map_err (evaluate set key c)) _ (evaluated-Answers (evaluate set key c))
              (λ r. details-Answers ints r r.value))

  status_of-ready :
      {Instant : Type 0} (elapsed : Instant → ℕ) (threshold : Option ℕ) (state : SyncState Instant)
      → status_of elapsed threshold state ≢ not_ready
  unfolding status_of
  status_of-ready elapsed none state = λ e. cc
  status_of-ready elapsed (some threshold) state =
      elim (Bool-cases (is_stale elapsed threshold state)) [
        | inl old ↦ rw old (λ e. cc)
        | inr young ↦ rw young (λ e. cc)
      ]

  module _ ⦃versions : Versions⦄ (ints : Integers num.F64 num.Number) {Instant A : Type 0}
      (coerce : JsonValue → Option A) where
    loaded-status :
        (elapsed : Instant → ℕ) (threshold : Option ℕ) (now : ℕ) (found : Option FlagSetOf)
        (state : SyncState Instant) (key : String) (context : OpenFeatureContext num.F64 num.Number)
        → ((evaluate_loaded ints now found key context >>= typed ints coerce)
            ≡ err provider_not_ready)
          ↔ (loaded_status elapsed threshold found state ≡ not_ready)
    unfolding loaded_status evaluate_loaded
    loaded-status elapsed threshold now none state key context = ((λ e. refl), (λ e. refl))
    loaded-status elapsed threshold now (some set) state key context = (
      (λ e. absurd (Answers-ready _ answers e)),
      (λ e. absurd (status_of-ready elapsed threshold state e)),
    )
      where
        answers : Answers (evaluate_loaded ints now (some set) key context >>= typed ints coerce)
        answers =
            >>=-Answers (evaluate_loaded ints now (some set) key context) _
              (loaded-Answers ints now set key context) (typed-Answers ints coerce)

    -- Whatever the flag, the context and the type that is asked for, a provider answers that it is not ready exactly where its
    -- status is not ready, with any staleness threshold.
    pub resolve_value-status :
        (elapsed : Instant → ℕ) (threshold : Option ℕ) (now : ℕ) (shared : ProviderShared Instant)
        (key : String) (context : OpenFeatureContext num.F64 num.Number)
        → (resolve_value ints coerce now shared key context ≡ err provider_not_ready)
          ↔ (status elapsed threshold shared ≡ not_ready)
    unfolding resolve_value evaluate_raw status
    resolve_value-status elapsed threshold now shared key context =
        loaded-status elapsed threshold now shared.flag_set shared.sync_state key context
