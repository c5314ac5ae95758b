-- ===== src/Compiler/Meaning/Serving/Conditions.antt =====
-- The conditions of the rules: the compiled rules evaluate as the target that the configuration serves.
use flaps.Prelude.{
  String, ◌≡◌, refl, sym, ◌∙◌, Bool, true, false, ◌&&◌, inl, inr, List, [], ◌∷◌, ok, ok_or,
  >>=-eq-ok, ok-injective, err≢ok, Bool-cases, Option-cases,
}
use flaps.Prelude.Map
use flaps.Json.{null, bool}
use flaps.Numbers.{Numbers}
use flaps.Versions.{Versions}
use flaps.Eval.Targeting
use flaps.Eval.Targeting.{Rule, Rules, Bucket}
use flaps.Eval.Coerce.{JsonValue, truthy, literal_value}
use flaps.Eval.Logic.{eval_if, eval_and, and_from}
use flaps.Eval.Apply.{apply, operands}
use flaps.Domain.Segment.{SegmentMatch}
use flaps.Compiler.Errors.{unknown_segment}
use flaps.Domain.Rollout.{ServeTarget, TargetingRule}
use flaps.Compiler.Flag.{
  Segments, condition_rules, all_of, compile_condition, compile_serve, compile_arms,
}
use flaps.Compiler.Segment.{compile_segment_match}
use flaps.Compiler.Meaning.Segments.{Decides}
use flaps.Compiler.Meaning.Segments.Connectives.{and_from-step, compile_segment_match-Decides}
use flaps.Compiler.Meaning.Serving.{
  segment_holds, segments_hold, serving, EachNonEmpty, get-NonEmpty,
}

and_true : (b : Bool) → (b && true) ≡ b
and_true true = refl
and_true false = refl

module _ ⦃num : Numbers⦄ ⦃ver : Versions⦄ where
  -- A rule's segment, compiled.
  segment-Decides :
      (flag : String) (segments : Segments) (key : String) {m : SegmentMatch num.Number}
      {r : Rule num.F64} (d : JsonValue)
      → EachNonEmpty segments
      → ok_or (Map.get key segments) (unknown_segment flag key) ≡ ok m
      → compile_segment_match m ≡ ok r
      → Decides r d (segment_holds segments key d)
  unfolding segment_holds
  segment-Decides flag segments key d h e k = elim (Option-cases (Map.get key segments)) [
    | inl missing ↦ absurd (err≢ok (rw missing at e))
    | inr (m, found) ↦
        let same = ok-injective (rw found at e) in
        rw (segment_holds, found)
          (compile_segment_match-Decides m d (get-NonEmpty segments key h found) (rw same k))
  ]

  -- The first of the compiled conditions, and the others.
  condition_rules-split :
      (flag key : String) (keys : List String) (segments : Segments) {rs : List (Rule num.F64)}
      (d : JsonValue)
      → EachNonEmpty segments
      → condition_rules flag (key ∷ keys) segments ≡ ok rs
      → (r : Rule num.F64) × (others : List (Rule num.F64)) × (r ∷ others ≡ rs)
        × Decides r d (segment_holds segments key d)
        × (condition_rules flag keys segments ≡ ok others)
  unfolding condition_rules
  condition_rules-split flag key keys segments d h e =
      let (m, e1, k1) = >>=-eq-ok (ok_or (Map.get key segments) (unknown_segment flag key)) _ e in
      let (r, e2, k2) = >>=-eq-ok (compile_segment_match m) _ k1 in
      let (others, e3, k3) = >>=-eq-ok (condition_rules flag keys segments) _ k2 in
      (r, others, ok-injective k3, segment-Decides flag segments key d h e1 e2, e3)

  conditions-Decides :
      (flag : String) (keys : List String) (segments : Segments) {rs : List (Rule num.F64)}
      (d v : JsonValue)
      → EachNonEmpty segments
      → condition_rules flag keys segments ≡ ok rs
      → truthy v ≡ true
      → (w : JsonValue) × (and_from v (operands (Targeting.of_list rs)) d ≡ ok w)
        × (truthy w ≡ segments_hold segments keys d)
  unfolding condition_rules segments_hold and_from operands
  conditions-Decides flag [] segments d v h e t = (v, rw (← ok-injective e) refl, t)
  conditions-Decides flag (key ∷ keys) segments d v h e t =
      let (r, others, split, decides, e') = condition_rules-split flag key keys segments d h e in
      rw (← split) (
        and_from-step r (Targeting.of_list others) d v decides
          (λ w went_on. conditions-Decides flag keys segments d w h e' went_on))

  all_of-Decides :
      (flag : String) (keys : List String) (segments : Segments) {rs : List (Rule num.F64)}
      (d : JsonValue)
      → EachNonEmpty segments
      → condition_rules flag keys segments ≡ ok rs
      → Decides (all_of rs) d (segments_hold segments keys d)
  unfolding condition_rules all_of segments_hold apply eval_and truthy literal_value
  all_of-Decides flag [] segments d h e = rw (← ok-injective e) (bool true, refl, refl)
  all_of-Decides flag (key ∷ []) segments d h e =
      let (r, others, split, (w, ran, decided), e') =
        condition_rules-split flag key [] segments d h e in
      rw (← split, ← ok-injective e')
        (w, ran, decided ∙ sym (and_true (segment_holds segments key d)))
  all_of-Decides flag (key ∷ key' ∷ keys) segments d h e =
      let (r, others, split, decides, e') =
        condition_rules-split flag key (key' ∷ keys) segments d h e in
      let (r', more, split', decides', e'') =
        condition_rules-split flag key' keys segments d h e' in
      rw (← split, ← split')
        (and_from-step r (Targeting.of_list (r' ∷ more)) d null decides (λ w went_on.
          conditions-Decides flag (key' ∷ keys) segments {rs = r' ∷ more} d w h (rw split' e')
            went_on))

  -- The condition of a rule evaluates to a value that is truthy exactly where all its segments hold.
  compile_condition-Decides :
      (flag : String) (keys : List String) (segments : Segments) {r : Rule num.F64} (d : JsonValue)
      → EachNonEmpty segments
      → compile_condition flag keys segments ≡ ok r
      → Decides r d (segments_hold segments keys d)
  unfolding compile_condition
  compile_condition-Decides flag keys segments d h e =
      let (rs, e', k) = >>=-eq-ok (condition_rules flag keys segments) _ e in
      rw (← ok-injective k) (all_of-Decides flag keys segments d h e')

  -- The compiled rules evaluate as the target that the configuration serves.
  pub compile_arms-serving :
      (flag : String) (rules : List TargetingRule) (last : ServeTarget) (segments : Segments)
      {arms : Rules num.F64} (d : JsonValue)
      → EachNonEmpty segments
      → compile_arms flag rules last segments ≡ ok arms
      → eval_if (operands arms) d ≡ apply (compile_serve (serving rules last segments d)) d
  unfolding compile_arms serving eval_if operands
  compile_arms-serving flag [] last segments d h e = rw (← ok-injective e) refl
  compile_arms-serving flag (r ∷ rs) last segments d h e =
      let (condition, e1, k1) = >>=-eq-ok (compile_condition flag r.segments segments) _ e in
      let (arms, e2, k2) = >>=-eq-ok (compile_arms flag rs last segments) _ k1 in
      let (w, ran, decided) = compile_condition-Decides flag r.segments segments d h e1 in
      elim (Bool-cases (truthy w)) [
        | inl kept ↦ rw (← ok-injective k2, ran, kept, (sym decided ∙ kept)) refl
        | inr passed ↦
            rw (← ok-injective k2, ran, passed, (sym decided ∙ passed))
              (compile_arms-serving flag rs last segments d h e2)
      ]
