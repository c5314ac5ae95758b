-- ===== src/Compiler/Meaning/Choice.antt =====
-- The variant that the evaluator chooses for a compiled flag is the one that the configuration serves, and the
-- flag has a value for it.
use flaps.Prelude.{
  ℕ, ◌-◌, ◌<◌, String, ◌≡◌, refl, ap, ◌∙◌, true, inl, inr, Option, none, some, List, [], ◌∷◌, ok,
  >>=-eq-ok, ok-injective, err≢ok, none≢some, arith, ltb, eqb, Bool-cases,
}
use mathlib.Core.Option.{some-injective}
use flaps.Numbers.{Numbers}
use flaps.Versions.{Versions}
use flaps.Eval.Targeting.{Rule, Rules}
use flaps.Eval.Coerce.{JsonValue}
use flaps.Eval.Murmur.Bounds.{bucket-lt-total}
use flaps.Eval.Fractional.{default_bucketing, variant_or_null}
use flaps.Eval.Apply.{apply}
use flaps.Eval.Evaluate.{
  Reason, static, targeting_match, ContextOf, evaluation_scope, selected, choose_variant,
}
use flaps.Domain.Variant.{contains}
use flaps.Domain.Rollout.{WeightedVariant, total, ServeTarget, fixed, rollout, TargetingRule}
use flaps.Compiler.Flag.{
  Segments, DomainVariants, validate_weights, validate_serve_target, validate_rules, fixed_variant,
  no_rules, targeting_with, compile_arms,
}
use flaps.Compiler.Meaning.Serving.{
  share_at, served, segments_hold, serving, EachNonEmpty, compile_serve-served,
}
use flaps.Compiler.Meaning.Serving.Conditions.{compile_arms-serving}

-- A rollout has a positive total, as its constructor in the domain requires.
unfoldable pub IsWeighted : ServeTarget → Type 0
IsWeighted (fixed v) = Unit {0}
IsWeighted (rollout ws) = 0 < total ws

unfoldable pub AllWeighted : List TargetingRule → Type 0
unfolding IsWeighted
AllWeighted [] = Unit {0}
AllWeighted (r ∷ rs) = IsWeighted r.serve × AllWeighted rs

share_at-some :
    (position : ℕ) (ws : List WeightedVariant)
    → position < total ws
    → (v : String) × (share_at position ws ≡ some v)
unfolding share_at total
share_at-some position [] h = absurd (omega arith)
share_at-some position (w ∷ ws) h = elim (Bool-cases (ltb position w.weight)) [
  | inl here ↦ (w.variant, rw here refl)
  | inr later ↦ rw later (share_at-some (position - w.weight) ws (ground arith))
]

module _ ⦃num : Numbers⦄ where
  -- A fixed variant without rules is chosen without a rule.
  unfoldable pub reason_of : List TargetingRule → ServeTarget → Reason
  reason_of [] (fixed v) = static
  reason_of rules last = targeting_match

  pub served-some :
      (t : ServeTarget) (d : JsonValue) → IsWeighted t → (v : String) × (served t d ≡ some v)
  unfolding served IsWeighted
  served-some (fixed v) d h = (v, refl)
  served-some (rollout ws) d h = elim (Bool-cases (eqb (total ws) 0)) [
    | inl nothing ↦ absurd (ground arith)
    | inr something ↦
        rw something (share_at-some _ ws (bucket-lt-total (default_bucketing d) (total ws) h))
  ]

  share_at-declared :
      (flag : String) (position : ℕ) (ws : List WeightedVariant) (domain : DomainVariants)
      {v : String}
      → validate_weights flag ws domain ≡ ok tt
      → share_at position ws ≡ some v
      → contains domain v ≡ true
  unfolding share_at validate_weights
  share_at-declared flag position [] domain h e = cc
  share_at-declared flag position (w ∷ ws) domain h e =
      elim (Bool-cases (contains domain w.variant)) [
        | inr unknown ↦ absurd (err≢ok (rw unknown at h))
        | inl known ↦ elim (Bool-cases (ltb position w.weight)) [
          | inl here ↦ rw (← some-injective _ _ (rw here at e)) known
          | inr later ↦
              share_at-declared flag (position - w.weight) ws domain (rw known at h) (rw later at e)
        ]
      ]

  pub served-declared :
      (flag : String) (t : ServeTarget) (domain : DomainVariants) (d : JsonValue) {v : String}
      → validate_serve_target flag t domain ≡ ok tt
      → served t d ≡ some v
      → contains domain v ≡ true
  unfolding served validate_serve_target
  served-declared flag (fixed w) domain d h e = elim (Bool-cases (contains domain w)) [
    | inl known ↦ rw (← some-injective _ _ e) known
    | inr unknown ↦ absurd (err≢ok (rw unknown at h))
  ]
  served-declared flag (rollout ws) domain d h e = elim (Bool-cases (eqb (total ws) 0)) [
    | inl nothing ↦ absurd (none≢some (rw nothing at e))
    | inr something ↦ share_at-declared flag _ ws domain h (rw something at e)
  ]

module _ ⦃num : Numbers⦄ ⦃ver : Versions⦄ where
  -- The target that is served is the target of a rule, or the default.
  pub serving-IsWeighted :
      (rules : List TargetingRule) (last : ServeTarget) (segments : Segments) (d : JsonValue)
      → AllWeighted rules
      → IsWeighted last
      → IsWeighted (serving rules last segments d)
  unfolding serving AllWeighted
  serving-IsWeighted [] last segments d h k = k
  serving-IsWeighted (r ∷ rs) last segments d h k =
      elim (Bool-cases (segments_hold segments r.segments d)) [
        | inl hold ↦ rw (serving, hold) h.0
        | inr fail ↦ rw (serving, fail) (serving-IsWeighted rs last segments d h.1 k)
      ]

  pub serving-declared :
      (flag : String) (rules : List TargetingRule) (last : ServeTarget) (segments : Segments)
      (domain : DomainVariants) (d : JsonValue)
      → validate_rules flag rules domain ≡ ok tt
      → validate_serve_target flag last domain ≡ ok tt
      → validate_serve_target flag (serving rules last segments d) domain ≡ ok tt
  unfolding serving validate_rules
  serving-declared flag [] last segments domain d h k = k
  serving-declared flag (r ∷ rs) last segments domain d h k =
      let (u, first, others) = >>=-eq-ok (validate_serve_target flag r.serve domain) _ h in
      elim (Bool-cases (segments_hold segments r.segments d)) [
        | inl hold ↦ rw (serving, hold) first
        | inr fail ↦ rw (serving, fail) (serving-declared flag rs last segments domain d others k)
      ]

  -- What the evaluator makes of the value of a compiled target.
  selected-served :
      (flag : String) (default : Option String) (o : Option String) {v : String}
      → o ≡ some v
      → selected flag default (variant_or_null o) ≡ ok (some v, targeting_match)
  unfolding selected variant_or_null
  selected-served flag default o h = rw h refl

  if_chain-served :
      (flag : String) (rules : List TargetingRule) (last : ServeTarget) (segments : Segments)
      {arms : Rules num.F64} (d : JsonValue)
      → EachNonEmpty segments
      → compile_arms flag rules last segments ≡ ok arms
      → apply (Rule.if_chain arms) d
        ≡ ok (variant_or_null (served (serving rules last segments d) d))
  unfolding apply
  if_chain-served flag rules last segments d h e =
      compile_arms-serving flag rules last segments d h e
      ∙ compile_serve-served (serving rules last segments d) d

  pub compile_targeting-choice :
      (flag : String) (rules : List TargetingRule) (last : ServeTarget) (segments : Segments)
      {compiled : Option (Rule num.F64) × Option String} (context : ContextOf) {v : String}
      → EachNonEmpty segments
      → targeting_with flag rules last segments ≡ ok compiled
      → served
          (serving rules last segments (evaluation_scope flag context))
          (evaluation_scope flag context)
        ≡ some v
      → choose_variant flag compiled.1 compiled.0 context ≡ ok (some v, reason_of rules last)
  unfolding targeting_with no_rules choose_variant serving served reason_of
  compile_targeting-choice flag [] (fixed w) segments context h e s =
      rw (← ok-injective e) (ap (λ o. ok (o, static)) s)
  compile_targeting-choice flag [] (rollout ws) segments context h e s =
      rw (← ok-injective e, compile_serve-served (rollout ws) (evaluation_scope flag context))
        (selected-served flag none _ s)
  compile_targeting-choice flag (r ∷ rs) last segments context h e s =
      let (arms, e', k) = >>=-eq-ok (compile_arms flag (r ∷ rs) last segments) _ e in
      let scope = evaluation_scope flag context in
      rw (← ok-injective k, if_chain-served flag (r ∷ rs) last segments scope h e')
        (selected-served flag (fixed_variant last) _ s)
