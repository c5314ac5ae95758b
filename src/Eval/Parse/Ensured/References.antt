-- ===== src/Eval/Parse/Ensured/References.antt =====
-- References: the declared evaluators that are not being resolved bound how deep the resolution goes.
use flaps.Prelude.{
  ℕ, zero, suc, ◌+◌, ◌≤◌, ◌<◌, String, ◌≡◌, refl, sym, subst, eq_iff, ◌==◌, ◌||◌, Bool, true, false,
  some, List, [], ◌∷◌, arith, length, Bool-cases, Option-cases, inl, inr,
}
use text.Mathlib.TextPositions.{eq_refl}
use flaps.Prelude.Map
use flaps.Prelude.Map.{BTreeMap}
use flaps.Numbers.{Numbers}
use flaps.Eval.Coerce.{JsonValue}
use flaps.Eval.Parse.Errors.{at_name}
use flaps.Eval.Parse.Document.{is_resolving, reference}
use flaps.Eval.Parse.Ensured.{Ensures, Resolves}
use flaps.Eval.Parse.Ensured.Rules.{rule-Ensures}

abbrev weight : Bool → ℕ
weight true = 0
weight false = 1

weight-or : (a b : Bool) → weight (a || b) ≤ weight b
weight-or true b = omega arith
weight-or false b = omega arith

-- How many declared names are not being resolved.
unfoldable pub remaining {ℓ} : {V : Type ℓ} → BTreeMap V → List String → ℕ
unfolding is_resolving
remaining [] resolving = 0
remaining ((k, v) ∷ m) resolving = weight (is_resolving k resolving) + remaining m resolving

pub remaining-nil {ℓ} : {V : Type ℓ} (m : BTreeMap V) → remaining m [] ≡ length m
unfolding remaining is_resolving
remaining-nil [] = refl
remaining-nil ((k, v) ∷ m) = omega (arith, remaining-nil m)

remaining_mono {ℓ} :
    {V : Type ℓ} (m : BTreeMap V) (name : String) (resolving : List String)
    → remaining m (name ∷ resolving) ≤ remaining m resolving
unfolding remaining is_resolving
remaining_mono [] name resolving = omega arith
remaining_mono ((k, v) ∷ m) name resolving =
    omega (arith, weight-or (name == k) (is_resolving k resolving), remaining_mono m name resolving)

-- A declared name that starts to be resolved is one less.
remaining-lt {ℓ} :
    {V : Type ℓ} (m : BTreeMap V) (name : String) (resolving : List String) {v : V}
    → Map.get name m ≡ some v
    → is_resolving name resolving ≡ false
    → remaining m (name ∷ resolving) < remaining m resolving
unfolding remaining is_resolving Map.get
remaining-lt [] name resolving found fresh = cc
remaining-lt ((k, v) ∷ m) name resolving found fresh = elim (Bool-cases (k == name)) [
  | inl here ↦
      let p : k ≡ name = (eq_iff k name).0 here in
      let listed : (name == k) ≡ true = subst (λ x. (name == x) ≡ true) (sym p) (eq_refl name) in
      let unlisted : is_resolving k resolving ≡ false =
        subst (λ x. is_resolving x resolving ≡ false) (sym p) fresh in
      rw (listed, unlisted) (omega (arith, remaining_mono m name resolving))
  | inr later ↦
      let less = remaining-lt m name resolving (rw later at found) fresh in
      omega (arith, weight-or (name == k) (is_resolving k resolving), less)
]

module _ ⦃num : Numbers⦄ where
  -- With more fuel than names that are left, a reference is a rule with none left in it, or an error of the
  -- program.
  pub reference-Ensures :
      (fuel : ℕ) (evaluators : BTreeMap JsonValue) (resolving : List String) (path name : String)
      → remaining evaluators resolving < fuel
      → Resolves (reference fuel evaluators resolving path name)
  unfolding reference Ensures
  reference-Ensures zero evaluators resolving path name h = absurd (omega arith)
  reference-Ensures (suc fuel) evaluators resolving path name h =
      elim (Bool-cases (is_resolving name resolving)) [
        | inl cyclic ↦ rw cyclic tt
        | inr fresh ↦ elim (Option-cases (Map.get name evaluators)) [
          | inl unknown ↦ rw (fresh, unknown) tt
          | inr (definition, found) ↦
              let less : remaining evaluators (name ∷ resolving) < fuel =
                omega (arith, remaining-lt evaluators name resolving found fresh) in
              rw (fresh, found)
                (rule-Ensures (reference fuel evaluators (name ∷ resolving))
                  (λ p other. reference-Ensures fuel evaluators (name ∷ resolving) p other less)
                  definition (at_name "$evaluators" name))
        ]
      ]
