-- ===== src/Compiler/Meaning/Segments/Connectives.antt =====
-- The connectives of a segment: a compiled segment evaluates to a value that is truthy exactly where the
-- segment holds.
use flaps.Prelude.{
  ◌≡◌, refl, ap, Bool, true, false, not, ◌&&◌, ◌||◌, ok, >>=-eq-ok, ok-injective, Bool-cases, inl,
  inr,
}
use flaps.Json.{null, bool}
use flaps.Numbers.{Numbers}
use flaps.Versions.{Versions}
use flaps.Eval.Targeting
use flaps.Eval.Targeting.{Rule, Rules}
use flaps.Eval.Coerce.{JsonValue, truthy}
use flaps.Eval.Logic.{eval_and, eval_or, and_from, or_from}
use flaps.Eval.Apply.{apply, operands, negate}
use flaps.Domain.Segment.{SegmentMatch, SegmentMatches, nil, cons}
use flaps.Compiler.Segment.{compile_predicate, compile_segment_match, compile_matches}
use flaps.Compiler.Meaning.Segments.{Decides, holds, all_hold, some_holds, predicate-Decides}

module _ ⦃num : Numbers⦄ ⦃ver : Versions⦄ where
  -- A conjunction has an operand, at every level of the segment.
  unfoldable mutual
    pub NonEmpty : SegmentMatch num.Number → Type 0
    NonEmpty (SegmentMatch.and nil) = ⊥
    NonEmpty (SegmentMatch.and (cons m ms)) = NonEmpty m × AllNonEmpty ms
    NonEmpty (SegmentMatch.or ms) = AllNonEmpty ms
    NonEmpty (SegmentMatch.not m) = NonEmpty m
    NonEmpty (SegmentMatch.predicate p) = Unit {0}

    pub AllNonEmpty : SegmentMatches num.Number → Type 0
    AllNonEmpty nil = Unit {0}
    AllNonEmpty (cons m ms) = NonEmpty m × AllNonEmpty ms

  -- One more operand of a conjunction.
  pub and_from-step :
      (r : Rule num.F64) (rs : Rules num.F64) (d : JsonValue) {a b : Bool} (last : JsonValue)
      → Decides r d a
      → ((v : JsonValue)
          → truthy v ≡ true
          → (w : JsonValue) × (and_from v (operands rs) d ≡ ok w) × (truthy w ≡ b))
      → (w : JsonValue) × (and_from last (operands (Targeting.cons r rs)) d ≡ ok w)
        × (truthy w ≡ (a && b))
  unfolding and_from apply
  and_from-step r rs d last (v, ran, decided) others = elim (Bool-cases (truthy v)) [
    | inl went_on ↦
        let (w, more, rest) = others v went_on in
        (w, rw (ran, went_on) more, rw (← decided, went_on) rest)
    | inr stopped ↦ (v, rw (ran, stopped) refl, rw (← decided, stopped) refl)
  ]

  -- One more operand of a disjunction.
  pub or_from-step :
      (r : Rule num.F64) (rs : Rules num.F64) (d : JsonValue) {a b : Bool} (last : JsonValue)
      → Decides r d a
      → ((v : JsonValue)
          → truthy v ≡ false
          → (w : JsonValue) × (or_from v (operands rs) d ≡ ok w) × (truthy w ≡ b))
      → (w : JsonValue) × (or_from last (operands (Targeting.cons r rs)) d ≡ ok w)
        × (truthy w ≡ (a || b))
  unfolding or_from apply
  or_from-step r rs d last (v, ran, decided) others = elim (Bool-cases (truthy v)) [
    | inr went_on ↦
        let (w, more, rest) = others v went_on in
        (w, rw (ran, went_on) more, rw (← decided, went_on) rest)
    | inl stopped ↦ (v, rw (ran, stopped) refl, rw (← decided, stopped) refl)
  ]

  mutual
    unfolding compile_segment_match compile_matches holds all_hold some_holds NonEmpty AllNonEmpty
        apply eval_and truthy eval_or and_from or_from compile_predicate negate

    match-Decides :
        (m : SegmentMatch num.Number) {r : Rule num.F64} (d : JsonValue)
        → NonEmpty m
        → compile_segment_match m ≡ ok r
        → Decides r d (holds m d)
    match-Decides (SegmentMatch.and nil) d present h = absurd present
    match-Decides (SegmentMatch.and (cons m ms)) d present h =
        let (rs, e, k) = >>=-eq-ok (compile_matches (cons m ms)) _ h in
        let (r, e', k') = >>=-eq-ok (compile_segment_match m) _ e in
        let (rest, e'', k'') = >>=-eq-ok (compile_matches ms) _ k' in
        rw (← ok-injective k, ← ok-injective k'')
          (and_from-step r rest d null (match-Decides m d present.0 e')
            (λ v went_on. conjunction-Decides ms d v present.1 e'' went_on))
    match-Decides (SegmentMatch.or ms) d present h =
        let (rs, e, k) = >>=-eq-ok (compile_matches ms) _ h in
        rw (← ok-injective k) (disjunction-Decides ms d null present e refl)
    match-Decides (SegmentMatch.not m) d present h =
        let (r, e, k) = >>=-eq-ok (compile_segment_match m) _ h in
        let (v, ran, decided) = match-Decides m d present e in
        rw (← ok-injective k) (bool (not (truthy v)), rw ran refl, ap not decided)
    match-Decides (SegmentMatch.predicate p) d present h =
        predicate-Decides p.attribute p.operator p.values d h

    conjunction-Decides :
        (ms : SegmentMatches num.Number) {rs : Rules num.F64} (d : JsonValue) (last : JsonValue)
        → AllNonEmpty ms
        → compile_matches ms ≡ ok rs
        → truthy last ≡ true
        → (w : JsonValue) × (and_from last (operands rs) d ≡ ok w) × (truthy w ≡ all_hold ms d)
    conjunction-Decides nil d last present h e = (last, rw (← ok-injective h) refl, e)
    conjunction-Decides (cons m ms) d last present h e =
        let (r, e', k') = >>=-eq-ok (compile_segment_match m) _ h in
        let (rest, e'', k'') = >>=-eq-ok (compile_matches ms) _ k' in
        rw (← ok-injective k'') (
          and_from-step r rest d last (match-Decides m d present.0 e')
            (λ v went_on. conjunction-Decides ms d v present.1 e'' went_on))

    disjunction-Decides :
        (ms : SegmentMatches num.Number) {rs : Rules num.F64} (d : JsonValue) (last : JsonValue)
        → AllNonEmpty ms
        → compile_matches ms ≡ ok rs
        → truthy last ≡ false
        → (w : JsonValue) × (or_from last (operands rs) d ≡ ok w) × (truthy w ≡ some_holds ms d)
    disjunction-Decides nil d last present h e = (last, rw (← ok-injective h) refl, e)
    disjunction-Decides (cons m ms) d last present h e =
        let (r, e', k') = >>=-eq-ok (compile_segment_match m) _ h in
        let (rest, e'', k'') = >>=-eq-ok (compile_matches ms) _ k' in
        rw (← ok-injective k'') (
          or_from-step r rest d last (match-Decides m d present.0 e')
            (λ v went_on. disjunction-Decides ms d v present.1 e'' went_on))

  -- A segment that compiles, with no empty conjunction in it, evaluates on every data without an error, to a
  -- value that is truthy exactly where the segment holds.
  pub compile_segment_match-Decides :
      (m : SegmentMatch num.Number) {r : Rule num.F64} (d : JsonValue)
      → NonEmpty m
      → compile_segment_match m ≡ ok r
      → Decides r d (holds m d)
  compile_segment_match-Decides = match-Decides
