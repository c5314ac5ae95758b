-- ===== src/Compiler/Meaning/Serving.antt =====
-- Configurations: the first rule whose segments all hold says what is served, and the default target where no
-- rule does. A rollout serves the variant whose share of the total holds the hash of the keys.
pub mod Conditions
use flaps.Prelude.{
  ℕ, ◌+◌, ◌-◌, ◌≤◌, ◌<◌, String, ◌≡◌, refl, sym, ap, subst, ◌==◌, ◌∙◌, Bool, true, false, ◌&&◌, ◌⊎◌,
  inl, inr, Option, none, some, List, [], ◌∷◌, ok, err, ok_or, ◌>>=◌, >>=-eq-ok, ok-injective,
  err≢ok, arith, ltb, eqb, Bool-cases, Option-cases, if◌then◌else◌,
}
use mathlib.Core.Option.{some-injective}
use flaps.Prelude.Map
use flaps.Json.{null, bool, string}
use flaps.Numbers.{Numbers}
use flaps.Versions.{Versions}
use flaps.Eval.Targeting
use flaps.Eval.Targeting.{Rule, Rules, Bucket}
use flaps.Eval.Coerce.{JsonValue, truthy, literal_value}
use flaps.Eval.Logic.{eval_if, eval_and, and_from}
use flaps.Eval.Murmur.{murmur3_bucket}
use flaps.Eval.Fractional
use flaps.Eval.Fractional.{
  total_weight, pick_from, default_bucketing, eval_fractional, bucketing_value, variant_or_null,
}
use flaps.Eval.Apply.{apply, operands}
use flaps.Domain.Segment.{SegmentMatch}
use flaps.Compiler.Errors.{unknown_segment}
use flaps.Domain.Rollout.{
  WeightedVariant, total, ServeTarget, fixed, rollout, TargetingRule, FlagEnvConfig,
}
use flaps.Compiler.Flag.{
  Segments, condition_rules, all_of, compile_condition, buckets_of, compile_serve, compile_arms,
}
use flaps.Compiler.Segment.{compile_segment_match}
use flaps.Compiler.Meaning.Segments.{Decides, holds}
use flaps.Compiler.Meaning.Segments.Connectives.{
  NonEmpty, and_from-step, compile_segment_match-Decides,
}

-- The variant whose share holds the position.
unfoldable pub share_at : ℕ → List WeightedVariant → Option String
share_at position [] = none
share_at position (w ∷ ws) =
    let rest = share_at (position - w.weight) ws in
    if ltb position w.weight then some w.variant else rest

pick_from-share_at :
    (bucket start : ℕ) (ws : List WeightedVariant)
    → start ≤ bucket
    → pick_from bucket start (buckets_of ws) ≡ share_at (bucket - start) ws
unfolding pick_from buckets_of share_at
pick_from-share_at bucket start [] h = refl
pick_from-share_at bucket start (w ∷ ws) h =
    let left : bucket - start - w.weight ≡ bucket - (start + w.weight) = omega arith in
    elim (Bool-cases (ltb (bucket - start) w.weight)) [
      | inl here ↦
          let here' : ltb bucket (start + w.weight) ≡ true = ground arith in rw (here, here') refl
      | inr later ↦
          let later' : ltb bucket (start + w.weight) ≡ false = ground arith in
          rw (later, later', left) (pick_from-share_at bucket (start + w.weight) ws (ground arith))
    ]

walk-share_at :
    (bucket : ℕ) (ws : List WeightedVariant)
    → pick_from bucket 0 (buckets_of ws) ≡ share_at bucket ws
walk-share_at bucket ws =
    let same : bucket - 0 ≡ bucket = omega arith in
    pick_from-share_at bucket 0 ws (omega arith) ∙ ap (λ b. share_at b ws) same

total_weight-buckets_of : (ws : List WeightedVariant) → total_weight (buckets_of ws) ≡ total ws
unfolding total_weight buckets_of total
total_weight-buckets_of [] = refl
total_weight-buckets_of (w ∷ ws) = omega (arith, total_weight-buckets_of ws)

module _ ⦃num : Numbers⦄ where
  -- What a target serves on the data.
  unfoldable pub served : ServeTarget → JsonValue → Option String
  unfolding share_at
  served (fixed v) d = some v
  served (rollout ws) d =
      if eqb (total ws) 0
      then none
      else share_at (murmur3_bucket (default_bucketing d) (total ws)) ws

module _ ⦃num : Numbers⦄ ⦃ver : Versions⦄ where
  -- A key that the environment does not have names no segment.
  unfoldable pub segment_holds : Segments → String → JsonValue → Bool
  unfolding holds
  segment_holds segments key d = elim (Map.get key segments) [ none ↦ false | some m ↦ holds m d ]

  unfoldable pub segments_hold : Segments → List String → JsonValue → Bool
  unfolding segment_holds
  segments_hold segments [] d = true
  segments_hold segments (key ∷ keys) d =
      segment_holds segments key d && segments_hold segments keys d

  -- The target of the first rule whose segments all hold, or the default.
  unfoldable pub serving : List TargetingRule → ServeTarget → Segments → JsonValue → ServeTarget
  unfolding segments_hold
  serving [] last segments d = last
  serving (r ∷ rs) last segments d =
      let others = serving rs last segments d in
      if segments_hold segments r.segments d then r.serve else others

  unfoldable pub EachNonEmpty : Segments → Type 0
  unfolding NonEmpty
  EachNonEmpty [] = Unit {0}
  EachNonEmpty ((k, m) ∷ rest) = NonEmpty m × EachNonEmpty rest

  pub get-NonEmpty :
      (segments : Segments) (key : String) {m : _}
      → EachNonEmpty segments
      → Map.get key segments ≡ some m
      → NonEmpty m
  unfolding Map.get EachNonEmpty
  get-NonEmpty [] key h e = cc
  get-NonEmpty ((k, n) ∷ rest) key {m = m} h e = elim (Bool-cases (k == key)) [
    | inl here ↦ subst NonEmpty (some-injective _ _ (rw here at e)) h.0
    | inr later ↦ get-NonEmpty rest key h.1 (rw later at e)
  ]

  -- What a target compiles to evaluates to what it serves, or to null.
  pub compile_serve-served :
      (t : ServeTarget) (d : JsonValue)
      → apply (compile_serve t) d ≡ ok (variant_or_null (served t d))
  unfolding compile_serve served variant_or_null apply eval_fractional bucketing_value literal_value
  compile_serve-served (fixed v) d = refl
  compile_serve-served (rollout ws) d = elim (Bool-cases (eqb (total ws) 0)) [
    | inl nothing ↦ rw (total_weight-buckets_of ws, nothing) refl
    | inr something ↦
        rw (total_weight-buckets_of ws, something)
          (ap (λ x. ok (variant_or_null x)) (walk-share_at _ ws))
  ]
