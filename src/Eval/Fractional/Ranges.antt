-- ===== src/Eval/Fractional/Ranges.antt =====
-- The walk of `eval_fractional` finds the bucket whose range of the cumulated weights holds the hash.
use flaps.Prelude.{
  ℕ, ◌+◌, ◌^◌, ◌≤◌, ◌<◌, String, ◌≡◌, ap, refl, inl, inr, Option, none, some, List, [], ◌∷◌, ◌++◌,
  ok, arith, ltb, eqb, Bool-cases, sym, ◌∙◌, ok-injective,
}
use flaps.Json.{null, string}
use flaps.Numbers.{Numbers}
use flaps.Eval.Targeting.{Bucket}
use flaps.Eval.Coerce.{JsonValue}
use flaps.Eval.Murmur.{murmur3_bucket}
use flaps.Eval.Murmur.Bounds.{bucket-lt-total, bucket-lt_word}
use flaps.Eval.Fractional
use flaps.Eval.Fractional.{
  total_weight, pick_from, default_bucketing, bucketing_value, eval_fractional,
}

-- `x` stands in `bs` with the weight `low` in front of it, and its range holds `bucket`.
pub record Lands (bucket : ℕ) (bs : List Bucket) (x : Bucket) : Type 0 where
  pub before : List Bucket
  pub after : List Bucket
  pub split : bs ≡ before ++ (x ∷ after)
  pub above : total_weight before ≤ bucket
  pub below : bucket < total_weight before + x.weight

pick_from-Lands :
    (bucket start : ℕ) (bs : List Bucket)
    → start ≤ bucket
    → bucket < start + total_weight bs
    → (x : Bucket) × (before : List Bucket) × (after : List Bucket) × (bs ≡ before ++ (x ∷ after))
      × (start + total_weight before ≤ bucket)
      × (bucket < start + total_weight before + x.weight)
      × (pick_from bucket start bs ≡ some x.variant)
unfolding total_weight pick_from
pick_from-Lands bucket start [] h k = absurd (omega arith)
pick_from-Lands bucket start (b ∷ bs) h k = elim (Bool-cases (ltb bucket (start + b.weight))) [
  | inl here ↦ (b, [], bs, refl, omega arith, ground arith, ground arith)
  | inr later ↦
      let (x, before, after, split, above, below, picked) =
        pick_from-Lands bucket (start + b.weight) bs (ground arith) (omega arith) in
      (x, b ∷ before, after, ap (λ l. b ∷ l) split, omega arith, omega arith, rw later picked)
]

module _ ⦃num : Numbers⦄ where
  eval_fractional_pos :
      (bs : List Bucket) (d : JsonValue)
      → 0 < total_weight bs
      → eval_fractional none bs d
        ≡ ok (
            Fractional.variant_or_null
              (pick_from (murmur3_bucket (default_bucketing d) (total_weight bs)) 0 bs))
  unfolding eval_fractional
  eval_fractional_pos bs d h = elim (Bool-cases (eqb (total_weight bs) 0)) [
    | inl zero_total ↦ absurd (ground arith)
    | inr e ↦ rw e
  ]

  -- With a positive total weight a rollout without an expression serves a variant, never null: that of
  -- the bucket whose range of the cumulated weights holds the hash of the flag key and targeting key.
  pub eval_fractional-Lands :
      (bs : List Bucket) (d : JsonValue)
      → 0 < total_weight bs
      → (x : Bucket) × Lands (murmur3_bucket (default_bucketing d) (total_weight bs)) bs x
        × (eval_fractional none bs d ≡ ok (string x.variant))
  unfolding Fractional.variant_or_null
  eval_fractional-Lands bs d h =
      let bucket = murmur3_bucket (default_bucketing d) (total_weight bs) in
      let (x, before, after, split, above, below, picked) =
        pick_from-Lands bucket 0 bs (omega arith)
          (omega (arith, bucket-lt-total (default_bucketing d) (total_weight bs) h)) in
      (
        x,
        record {
          before = before;
          after = after;
          split = split;
          above = omega arith;
          below = omega arith;
        },
        rw (eval_fractional_pos bs d h, picked),
      )

abbrev pub two_way : String → String → ℕ → ℕ → List Bucket
two_way on off w rest =
    record { variant = on; weight = w } ∷ record { variant = off; weight = rest } ∷ []

two_way_mono :
    (on off : String) (bucket w v rest rest' : ℕ)
    → w ≤ v
    → w + rest ≡ v + rest'
    → bucket < w + rest
    → pick_from bucket 0 (two_way on off w rest) ≡ some on
    → pick_from bucket 0 (two_way on off v rest') ≡ some on
unfolding pick_from
two_way_mono on off bucket w v rest rest' h e lt p = ground arith

total_two_way : (on off : String) (w rest : ℕ) → total_weight (two_way on off w rest) ≡ w + rest
unfolding total_weight
total_two_way on off w rest = omega arith

total-append :
    (before after : List Bucket)
    → total_weight (before ++ after) ≡ total_weight before + total_weight after
unfolding total_weight
total-append [] after = omega arith
total-append (b ∷ before) after = omega (arith, total-append before after)

-- What stands behind the range that holds the bucket is not read.
pick_from-append :
    (bucket start : ℕ) (before after : List Bucket)
    → bucket < start + total_weight before
    → start ≤ bucket
    → pick_from bucket start (before ++ after) ≡ pick_from bucket start before
unfolding total_weight pick_from
pick_from-append bucket start [] after h k = absurd (omega arith)
pick_from-append bucket start (b ∷ before) after h k =
    elim (Bool-cases (ltb bucket (start + b.weight))) [
      | inl here ↦ rw here
      | inr later ↦
          rw later
            (pick_from-append bucket (start + b.weight) before after (omega arith) (ground arith))
    ]

module _ ⦃num : Numbers⦄ where
  eval_fractional_zero :
      (bs : List Bucket) (d : JsonValue) → total_weight bs ≡ 0 → eval_fractional none bs d ≡ ok null
  unfolding eval_fractional
  eval_fractional_zero bs d h = rw h

  picked-eq-some :
      (o : Option String) (s : String) → Fractional.variant_or_null o ≡ string s → o ≡ some s
  unfolding Fractional.variant_or_null
  picked-eq-some none s h = cc
  picked-eq-some (some t) s h = cc

  -- Raising the weight of the first variant of a rollout of two, at the same total, keeps everyone who was
  -- served it.
  pub eval_fractional_mono :
      (on off : String) (w v rest rest' : ℕ) (d : JsonValue)
      → w ≤ v
      → w + rest ≡ v + rest'
      → eval_fractional none (two_way on off w rest) d ≡ ok (string on)
      → eval_fractional none (two_way on off v rest') d ≡ ok (string on)
  eval_fractional_mono on off w v rest rest' d h e p =
      let old = two_way on off w rest in
      let new = two_way on off v rest' in
      let same : total_weight new ≡ total_weight old =
        omega (arith, total_two_way on off w rest, total_two_way on off v rest') in
      elim (Bool-cases (eqb (total_weight old) 0)) [
        | inl nothing ↦ cc (eval_fractional_zero old d (ground arith), p)
        | inr something ↦
            let pos : 0 < total_weight old = ground arith in
            let pos' : 0 < total_weight new = omega arith in
            let picked =
              picked-eq-some _ on (ok-injective (sym (eval_fractional_pos old d pos) ∙ p)) in
            rw
              (
                eval_fractional_pos new d pos',
                same,
                two_way_mono on off _ w v rest rest' h e
                    (omega (
                      arith,
                      bucket-lt-total (default_bucketing d) (total_weight old) pos,
                      total_two_way on off w rest,
                    ))
                    picked,
              )
              (unfold Fractional.variant_or_null in refl)
      ]

  -- Of weights that total 2 ^ 32 and more, whatever stands behind them is never served: a variant among them
  -- is.
  pub eval_fractional-take :
      (before after : List Bucket) (d : JsonValue)
      → 2 ^ 32 ≤ total_weight before
      → (x : Bucket) × Lands
          (murmur3_bucket (default_bucketing d) (total_weight (before ++ after)))
          before
          x
        × (eval_fractional none (before ++ after) d ≡ ok (string x.variant))
  unfolding Fractional.variant_or_null
  eval_fractional-take before after d h =
      let whole = before ++ after in
      let bucket = murmur3_bucket (default_bucketing d) (total_weight whole) in
      let small = bucket-lt_word (default_bucketing d) (total_weight whole) in
      let (x, front, back, split, above, below, picked) =
        pick_from-Lands bucket 0 before (omega arith) (omega arith) in
      (
        x,
        record {
          before = front;
          after = back;
          split = split;
          above = omega arith;
          below = omega arith;
        },
        rw (
          eval_fractional_pos whole d (omega (arith, total-append before after)),
          pick_from-append bucket 0 before after (omega arith) (omega arith),
          picked,
        ),
      )
