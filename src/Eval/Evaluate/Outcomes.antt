-- ===== src/Eval/Evaluate/Outcomes.antt =====
-- The outcomes of an evaluation of a parsed document.
use flaps.Prelude.{
  String, ◌≡◌, refl, subst, ◌⊎◌, inl, inr, ◌==◌, Option, none, some, [], ◌∷◌, ok, err, ◌>>=◌,
  Bool-cases, Option-cases,
}
use mathlib.Core.Option.{some-injective}
use flaps.Prelude.Map
use flaps.Prelude.Map.{BTreeMap}
use flaps.Json.{null, bool, number, string, array, object}
use flaps.Numbers.{Numbers}
use flaps.Versions.{Versions}
use flaps.Eval.Targeting.{Rule}
use flaps.Eval.Coerce.{JsonValue}
use flaps.Eval.Errors.{Evaluated, flag_not_found, invalid_variant}
use flaps.Eval.Model.{State, Metadata, FlagOf, FlagSetOf, VariantsOf}
use flaps.Eval.Apply.{apply}
use flaps.Eval.Apply.Resolved.{Returns, returns, apply-Returns}
use flaps.Eval.Parse.Document.{from_json}
use flaps.Eval.Parse.Ensured.{Ensures}
use flaps.Eval.Parse.Ensured.Values.{Each}
use flaps.Eval.Parse.Ensured.Documents.{
  TargetResolved, FlagResolved, SetResolved, from_json-Ensures,
}
use flaps.Eval.Evaluate.{
  Reason, ContextOf, ResolutionOf, evaluation_scope, variant_value, selected, resolve,
  choose_variant, evaluate_flag, evaluate,
}

Each-get {ℓ} :
    {V : Type ℓ} (P : V → Type 0) (key : String) (m : BTreeMap V) {v : V}
    → Each P m
    → Map.get key m ≡ some v
    → P v
unfolding Each Map.get
Each-get P key [] h e = cc
Each-get P key ((k, w) ∷ m) h e = elim (Bool-cases (k == key)) [
  | inl here ↦ subst P (some-injective _ _ (rw here at e)) h.0
  | inr later ↦ Each-get P key m h.1 (rw later at e)
]

module _ ⦃num : Numbers⦄ where
  -- A result, or the error that a variant is not there.
  abbrev Settles : {A : Type 0} → String → Evaluated A → Type 0
  Settles {A = A} key m =
      ((a : A) × (m ≡ ok a)) ⊎ ((v : JsonValue) × (m ≡ err (invalid_variant key v)))

  Returns-Settles : {A : Type 0} (key : String) {m : Evaluated A} → Returns m → Settles key m
  Returns-Settles key (returns a) = inl (a, refl)

  Settles->>= :
      {A B : Type 0} (key : String) (m : Evaluated A) (f : A → Evaluated B)
      → Settles key m
      → ((a : A) → Settles key (f a))
      → Settles key (m >>= f)
  Settles->>= key m f (inl (a, h)) k = rw h (k a)
  Settles->>= key m f (inr (v, h)) k = inr (v, rw h refl)

  selected-Settles :
      (key : String) (default : Option String) (v : JsonValue)
      → Settles key (selected key default v)
  unfolding selected
  selected-Settles key default null = inl (_, refl)
  selected-Settles key default (bool b) = inl (_, refl)
  selected-Settles key default (number n) = inr (_, refl)
  selected-Settles key default (string s) = inl (_, refl)
  selected-Settles key default (array vs) = inr (_, refl)
  selected-Settles key default (object fs) = inr (_, refl)

  resolve-Settles :
      (key : String) (variants : VariantsOf) (metadata : Metadata) (chosen : Option String × Reason)
      → Settles key (resolve key variants metadata chosen)
  unfolding resolve
  resolve-Settles key variants metadata (none, reason) = inl (_, refl)
  resolve-Settles key variants metadata (some v, reason) =
      elim (Option-cases (variant_value variants v)) [
        | inl missing ↦ inr (string v, rw (resolve, missing) refl)
        | inr (value, found) ↦ inl (
          record { value = some value; variant = some v; reason = reason; metadata = metadata },
          rw (resolve, found) refl,
        )
      ]

module _ ⦃num : Numbers⦄ ⦃ver : Versions⦄ where
  choose_variant-Settles :
      (key : String) (default : Option String) (targeting : Option (Rule num.F64))
      (context : ContextOf)
      → TargetResolved targeting
      → Settles key (choose_variant key default targeting context)
  unfolding choose_variant TargetResolved
  choose_variant-Settles key default none context h = inl (_, refl)
  choose_variant-Settles key default (some r) context h =
      Settles->>= key (apply r (evaluation_scope key context)) _
        (Returns-Settles key (apply-Returns r (evaluation_scope key context) h))
        (selected-Settles key default)

  evaluate_flag-Settles :
      (key : String) (flag : FlagOf) (metadata : Metadata) (state : State) (context : ContextOf)
      → FlagResolved flag
      → Settles key (evaluate_flag key flag metadata state context)
  unfolding evaluate_flag FlagResolved
  evaluate_flag-Settles key flag metadata State.disabled context h = inl (_, refl)
  evaluate_flag-Settles key flag metadata State.enabled context h =
      Settles->>= key (choose_variant key flag.default_variant flag.targeting context) _
        (choose_variant-Settles key flag.default_variant flag.targeting context h)
        (resolve-Settles key flag.variants metadata)

  -- An evaluation of a parsed document, whatever its rules and the context, fails in two ways only: with
  -- `flag_not_found` where the document has no such flag, and else with `invalid_variant` or not at all.
  pub evaluate-outcomes :
      (parse : String → Option JsonValue) (document : String) (set : FlagSetOf) (key : String)
      (context : ContextOf)
      → from_json parse document ≡ ok set
      → ((Map.get key set.flags ≡ none) × (evaluate set key context ≡ err (flag_not_found key)))
        ⊎ ((flag : FlagOf) × (Map.get key set.flags ≡ some flag)
            × (((r : ResolutionOf) × (evaluate set key context ≡ ok r))
                ⊎ ((v : JsonValue) × (evaluate set key context ≡ err (invalid_variant key v)))))
  unfolding evaluate SetResolved Ensures
  evaluate-outcomes parse document set key context h =
      let resolved : SetResolved set =
        subst (Ensures SetResolved) h (from_json-Ensures parse document) in
      elim (Option-cases (Map.get key set.flags)) [
        | inl missing ↦ inl (missing, rw missing refl)
        | inr (flag, found) ↦ inr (
          flag,
          found,
          rw found (
              evaluate_flag-Settles key flag (Map.extend set.metadata flag.metadata) flag.state
                context (Each-get FlagResolved key set.flags resolved found)),
        )
      ]
