-- ===== src/Compiler/Environment/Uses.antt =====
-- Which environments use a segment.
use flaps.Prelude.{
  String, ◌≡◌, refl, sym, subst, ◌↔◌, ◌⊎◌, inl, inr, Bool, true, false, ◌||◌, eq_iff, ◌==◌, List,
  [], ◌∷◌, Bool-cases,
}
use flaps.Prelude.Map.{BTreeMap}
use flaps.Numbers.{Numbers}
use flaps.Domain.Rollout.{TargetingRule}
use flaps.Compiler.Environment.{
  FlagConfig, mentions_key, mentions_rule, mentions, environments_referencing_segment,
}

-- `x` stands in the list.
pub data In {ℓ} {A : Type ℓ} (x : A) : List A → Type ℓ where
  here : {xs : List A} → In x (x ∷ xs)
  there : {y : A} {xs : List A} → In x xs → In x (y ∷ xs)

uncons {ℓ} : {A : Type ℓ} {x y : A} {xs : List A} → In x (y ∷ xs) → (x ≡ y) ⊎ In x xs
uncons here = inl refl
uncons (there p) = inr p

or_true : (a : Bool) {b : Bool} → b ≡ true → (a || b) ≡ true
or_true true h = refl
or_true false h = h

module _ ⦃num : Numbers⦄ where
  -- A rule of a flag names the segment among its own.
  pub record Mentions (segment : String) (flags : List FlagConfig) : Type 0 where
    pub flag : FlagConfig
    pub rule : TargetingRule
    pub flag_in : In flag flags
    pub rule_in : In rule flag.config.rules
    pub named : In segment rule.segments

  mentions_key-In :
      (segment : String) (keys : List String) → mentions_key segment keys ≡ true → In segment keys
  unfolding mentions_key
  mentions_key-In segment [] h = cc
  mentions_key-In segment (key ∷ keys) h = elim (Bool-cases (key == segment)) [
    | inl same ↦ subst (λ k. In segment (k ∷ keys)) (sym ((eq_iff key segment).0 same)) here
    | inr other ↦ there (mentions_key-In segment keys (rw other at h))
  ]

  mentions_rule-In :
      (segment : String) (rules : List TargetingRule)
      → mentions_rule segment rules ≡ true
      → (r : TargetingRule) × In r rules × In segment r.segments
  unfolding mentions_rule
  mentions_rule-In segment [] h = cc
  mentions_rule-In segment (r ∷ rs) h = elim (Bool-cases (mentions_key segment r.segments)) [
    | inl named ↦ (r, here, mentions_key-In segment r.segments named)
    | inr other ↦
        let (found, place, named) = mentions_rule-In segment rs (rw other at h) in
        (found, there place, named)
  ]

  mentions-Mentions :
      (segment : String) (flags : List FlagConfig)
      → mentions segment flags ≡ true
      → Mentions segment flags
  unfolding mentions
  mentions-Mentions segment [] h = cc
  mentions-Mentions segment (c ∷ cs) h = elim (Bool-cases (mentions_rule segment c.config.rules)) [
    | inl named ↦
        let (r, place, in_rule) = mentions_rule-In segment c.config.rules named in
        record { flag = c; rule = r; flag_in = here; rule_in = place; named = in_rule }
    | inr other ↦
        let m = mentions-Mentions segment cs (rw other at h) in
        record {
          flag = m.flag;
          rule = m.rule;
          flag_in = there m.flag_in;
          rule_in = m.rule_in;
          named = m.named;
        }
  ]

  In-mentions_key :
      (segment : String) (keys : List String) → In segment keys → mentions_key segment keys ≡ true
  unfolding mentions_key
  In-mentions_key segment [] h = elim h [ ]
  In-mentions_key segment (key ∷ keys) here = rw ((eq_iff segment segment).1 refl) refl
  In-mentions_key segment (key ∷ keys) (there p) =
      or_true (key == segment) (In-mentions_key segment keys p)

  In-mentions_rule :
      (segment : String) (rules : List TargetingRule) {r : TargetingRule}
      → In r rules
      → In segment r.segments
      → mentions_rule segment rules ≡ true
  unfolding mentions_rule
  In-mentions_rule segment [] h k = elim h [ ]
  In-mentions_rule segment (r ∷ rs) here k = rw (In-mentions_key segment r.segments k) refl
  In-mentions_rule segment (r ∷ rs) (there p) k =
      or_true (mentions_key segment r.segments) (In-mentions_rule segment rs p k)

  Mentions-mentions :
      (segment : String) (flags : List FlagConfig) {c : FlagConfig}
      → In c flags
      → mentions_rule segment c.config.rules ≡ true
      → mentions segment flags ≡ true
  unfolding mentions
  Mentions-mentions segment [] h k = elim h [ ]
  Mentions-mentions segment (c ∷ cs) here k = rw k refl
  Mentions-mentions segment (c ∷ cs) (there p) k =
      or_true (mentions_rule segment c.config.rules) (Mentions-mentions segment cs p k)

  -- A listed environment has a flag that mentions the segment.
  listed-Mentions :
      (segment environment : String) (environments : BTreeMap (List FlagConfig))
      → In environment (environments_referencing_segment segment environments)
      → (flags : List FlagConfig) × In (environment, flags) environments × Mentions segment flags
  unfolding environments_referencing_segment
  listed-Mentions segment environment [] h = elim h [ ]
  listed-Mentions segment environment ((e, flags) ∷ rest) h =
      elim (Bool-cases (mentions segment flags)) [
        | inl mentioned ↦ elim (uncons (rw mentioned at h)) [
          | inl same ↦ (
            flags,
            subst (λ x. In (x, flags) ((e, flags) ∷ rest)) (sym same) here,
            mentions-Mentions segment flags mentioned,
          )
          | inr later ↦
              let (found, place, m) = listed-Mentions segment environment rest later in
              (found, there place, m)
        ]
        | inr other ↦
            let (found, place, m) = listed-Mentions segment environment rest (rw other at h) in
            (found, there place, m)
      ]

  Mentions-listed :
      (segment environment : String) (environments : BTreeMap (List FlagConfig))
      {flags : List FlagConfig}
      → In (environment, flags) environments
      → mentions segment flags ≡ true
      → In environment (environments_referencing_segment segment environments)
  unfolding environments_referencing_segment
  Mentions-listed segment environment [] h k = elim h [ ]
  Mentions-listed segment environment ((e, flags) ∷ rest) here k = rw k here
  Mentions-listed segment environment ((e, other_flags) ∷ rest) (there p) k =
      let later = Mentions-listed segment environment rest p k in
      elim (Bool-cases (mentions segment other_flags)) [
        | inl mentioned ↦ rw mentioned (there later)
        | inr other ↦ rw other later
      ]

  -- The environments that are listed for a segment are those where a rule of a flag names it: each listed one
  -- has such a flag, and each that has one is listed.
  pub environments_referencing_segment_iff :
      (segment environment : String) (environments : BTreeMap (List FlagConfig))
      → In environment (environments_referencing_segment segment environments) ↔ (
          (flags : List FlagConfig) × In (environment, flags) environments × Mentions segment flags)
  environments_referencing_segment_iff segment environment environments = (
    listed-Mentions segment environment environments,
    λ found.
        let m = found.2 in
        Mentions-listed segment environment environments found.1 (
          Mentions-mentions segment found.0 m.flag_in
            (In-mentions_rule segment m.flag.config.rules m.rule_in m.named)),
  )
