-- ===== src/Compiler/Meaning/Flags.antt =====
-- A compiled flag in a flag set, evaluated: what the configuration serves, and the kill switch.
use flaps.Prelude.{
  String, ◌≡◌, refl, ap, ◌∙◌, true, false, Option, none, some, ok, >>=-eq-ok, ok-injective,
  if◌then◌else◌,
}
use flaps.Prelude.Map
use flaps.Numbers.{Numbers}
use flaps.Versions.{Versions}
use flaps.Eval.Coerce.{JsonValue}
use flaps.Eval.Model
use flaps.Eval.Model.{State, FlagOf, FlagSetOf, Metadata}
use flaps.Eval.Evaluate.{
  Reason, ContextOf, evaluation_scope, variant_value, evaluate, choose_variant, evaluate_flag,
  resolve,
}
use flaps.Domain.Variant.{is_some}
use flaps.Domain.Rollout.{FlagEnvConfig}
use flaps.Compiler.Flag.{
  Segments, DomainVariants, validate_serve_target, validate_rules, compile_targeting,
  compile_variants, compile_flag,
}
use flaps.Compiler.Meaning.Serving.{served, serving, EachNonEmpty}
use flaps.Compiler.Meaning.Choice.{
  IsWeighted, AllWeighted, reason_of, served-some, served-declared, serving-IsWeighted,
  serving-declared, compile_targeting-choice,
}
use flaps.Compiler.Meaning.Values.{compile_variants-is_some}

is_some-witness {ℓ} : {A : Type ℓ} (o : Option A) → is_some o ≡ true → (a : A) × (o ≡ some a)
is_some-witness none h = cc
is_some-witness (some a) h = (a, refl)

module _ ⦃num : Numbers⦄ ⦃ver : Versions⦄ where
  -- The variant that the configuration of a flag serves in a context.
  unfoldable pub serves : String → FlagEnvConfig → Segments → ContextOf → Option String
  unfolding served serving
  serves flag config segments context =
      let scope = evaluation_scope flag context in
      served (serving config.rules config.default_rule segments scope) scope

  -- An evaluation that finds a flag evaluates it with the metadata of the set under its own.
  evaluate_found :
      (set : FlagSetOf) (key : String) (context : ContextOf) {flag : FlagOf}
      → Map.get key set.flags ≡ some flag
      → evaluate set key context
        ≡ evaluate_flag key flag (Map.extend set.metadata flag.metadata) flag.state context
  unfolding evaluate
  evaluate_found set key context h = rw h refl

  resolve_found :
      (flag : String) (variants : Model.VariantsOf) (metadata : Metadata) (v : String)
      (reason : Reason) {value : JsonValue}
      → variant_value variants v ≡ some value
      → resolve flag variants metadata (some v, reason)
        ≡ ok (record { value = some value; variant = some v; reason = reason; metadata = metadata })
  unfolding resolve
  resolve_found flag variants metadata v reason h = rw (resolve, h) refl

  -- The parts of a flag that compiled.
  compile_flag-parts :
      (flag : String) (domain : DomainVariants) (config : FlagEnvConfig) (segments : Segments)
      (metadata : Metadata) (compiled : FlagOf)
      → compile_flag flag domain config segments metadata ≡ ok compiled
      → (compile_variants flag domain ≡ ok compiled.variants)
        × (validate_serve_target flag config.default_rule domain ≡ ok tt)
        × (validate_rules flag config.rules domain ≡ ok tt)
        × (compile_targeting flag config segments
            ≡ ok (compiled.targeting, compiled.default_variant))
        × (compiled.state ≡ (if config.enabled then State.enabled else State.disabled))
  unfolding compile_flag
  compile_flag-parts flag domain config segments metadata compiled h =
      let (variants, e1, k1) = >>=-eq-ok (compile_variants flag domain) _ h in
      let (u, e2, k2) = >>=-eq-ok (validate_serve_target flag config.default_rule domain) _ k1 in
      let (u', e3, k3) = >>=-eq-ok (validate_rules flag config.rules domain) _ k2 in
      let (targeting, e4, k4) = >>=-eq-ok (compile_targeting flag config segments) _ k3 in
      rw (← ok-injective k4) (e1, e2, e3, e4, refl)

  evaluate_enabled :
      (key : String) (flag : FlagOf) (metadata : Metadata) (context : ContextOf)
      {chosen : Option String × Reason}
      → choose_variant key flag.default_variant flag.targeting context ≡ ok chosen
      → evaluate_flag key flag metadata State.enabled context
        ≡ resolve key flag.variants metadata chosen
  unfolding evaluate_flag
  evaluate_enabled key flag metadata context h = rw h refl

  -- A flag that compiles from an enabled configuration, where each rollout has a positive total and no segment
  -- of the environment has an empty conjunction, evaluates in every set that holds it and every context
  -- without an error to the variant that its configuration serves, with the value that the flag has for it.
  pub compile_flag-serves :
      (flag : String) (domain : DomainVariants) (config : FlagEnvConfig) (segments : Segments)
      (metadata : Metadata) (compiled : FlagOf) (set : FlagSetOf) (context : ContextOf)
      → compile_flag flag domain config segments metadata ≡ ok compiled
      → Map.get flag set.flags ≡ some compiled
      → EachNonEmpty segments
      → AllWeighted config.rules
      → IsWeighted config.default_rule
      → config.enabled ≡ true
      → (v : String) × (value : JsonValue) × (serves flag config segments context ≡ some v)
        × (variant_value compiled.variants v ≡ some value)
        × (evaluate set flag context
            ≡ ok (record {
              value = some value;
              variant = some v;
              reason = reason_of config.rules config.default_rule;
              metadata = Map.extend set.metadata compiled.metadata;
            }))
  unfolding serves compile_targeting
  compile_flag-serves flag domain config segments metadata compiled set context h found present
        weighted default_weighted on =
      let scope = evaluation_scope flag context in
      let target = serving config.rules config.default_rule segments scope in
      let (e1, e2, e3, e4, state) =
        compile_flag-parts flag domain config segments metadata compiled h in
      let (v, s) = served-some target scope (
        serving-IsWeighted config.rules config.default_rule segments scope weighted
          default_weighted) in
      let declared =
        served-declared flag target domain scope
          (serving-declared flag config.rules config.default_rule segments domain scope e3 e2) s in
      let (value, has) = is_some-witness _ (compile_variants-is_some flag domain v e1 declared) in
      let choice =
        compile_targeting-choice flag config.rules config.default_rule segments context present e4
          s in
      let merged = Map.extend set.metadata compiled.metadata in
      (
        v,
        value,
        s,
        has,
        evaluate_found set flag context found
            ∙ ap (λ x. evaluate_flag flag compiled merged x context) (rw on at state)
            ∙ evaluate_enabled flag compiled merged context choice
            ∙ resolve_found flag compiled.variants merged v _ has,
      )

  -- A flag that is compiled with its kill switch off evaluates, in every set that holds it and every context,
  -- to no value and no variant, with the reason `Disabled`.
  pub compile_flag-disabled :
      (flag : String) (domain : DomainVariants) (config : FlagEnvConfig) (segments : Segments)
      (metadata : Metadata) (compiled : FlagOf) (set : FlagSetOf) (context : ContextOf)
      → compile_flag flag domain config segments metadata ≡ ok compiled
      → Map.get flag set.flags ≡ some compiled
      → config.enabled ≡ false
      → evaluate set flag context
        ≡ ok (record {
          value = none;
          variant = none;
          reason = Reason.disabled;
          metadata = Map.extend set.metadata compiled.metadata;
        })
  unfolding evaluate_flag
  compile_flag-disabled flag domain config segments metadata compiled set context h found off =
      let (e1, e2, e3, e4, state) =
        compile_flag-parts flag domain config segments metadata compiled h in
      evaluate_found set flag context found
      ∙ ap (λ x. evaluate_flag flag compiled (Map.extend set.metadata compiled.metadata) x context)
          (rw off at state)
