-- ===== src/Eval/Parse/Ensured/Documents.antt =====
-- Documents: a document that parses has no `$ref` left in it, and the parser never lacks fuel.
use flaps.Prelude.{
  suc, String, Option, none, some, [], ◌∷◌, ok, ◌>>=◌, arith, length, Bool-cases, Option-cases, inl,
  inr,
}
use flaps.Prelude.Map.{BTreeMap}
use flaps.Json
use flaps.Json.{Fields, null, bool, number, string, array, object, end, field}
use flaps.Numbers.{Numbers}
use flaps.Eval.Targeting.{Rule}
use flaps.Eval.Coerce.{JsonValue}
use flaps.Eval.Apply.Resolved.{IsResolved}
use flaps.Eval.Model.{FlagOf, FlagSetOf}
use flaps.Eval.Parse.Errors.{at_name}
use flaps.Eval.Parse.Rule.{rule}
use flaps.Eval.Parse.Values.{collect, state, variants, optional_metadata}
use flaps.Eval.Parse.Document.{
  reference, check_properties, is_flag_property, default_variant_of, targeting_of, flag,
  evaluators_of, flags_of, flag_set, from_json,
}
use flaps.Eval.Parse.Ensured.{Ensures, Anything, Ensures->>=, Resolves}
use flaps.Eval.Parse.Ensured.Operators.{Reference}
use flaps.Eval.Parse.Ensured.Rules.{rule-Ensures}
use flaps.Eval.Parse.Ensured.References.{remaining-nil, reference-Ensures}
use flaps.Eval.Parse.Ensured.Values.{
  Each, collect-Ensures, state-Ensures, variants-Ensures, optional_metadata-Ensures,
}

module _ ⦃num : Numbers⦄ where
  -- A flag whose targeting, if it has one, has no `$ref` left in it.
  unfoldable pub TargetResolved : Option (Rule num.F64) → Type 0
  TargetResolved none = Unit {0}
  TargetResolved (some r) = IsResolved r

  unfoldable pub FlagResolved : FlagOf → Type 0
  unfolding TargetResolved
  FlagResolved f = TargetResolved f.targeting

  unfoldable pub SetResolved : FlagSetOf → Type 0
  unfolding FlagResolved Each
  SetResolved s = Each FlagResolved s.flags

  check_properties-Ensures :
      (path : String) (m : BTreeMap JsonValue) → Ensures Anything (check_properties path m)
  unfolding check_properties Ensures
  check_properties-Ensures path [] = tt
  check_properties-Ensures path ((name, v) ∷ rest) = elim (Bool-cases (is_flag_property name)) [
    | inl known ↦ rw known (check_properties-Ensures path rest)
    | inr unknown ↦ rw unknown tt
  ]

  default_variant_of-Ensures :
      (path : String) (o : Option JsonValue) → Ensures Anything (default_variant_of path o)
  unfolding default_variant_of Ensures
  default_variant_of-Ensures path none = tt
  default_variant_of-Ensures path (some null) = tt
  default_variant_of-Ensures path (some (bool b)) = tt
  default_variant_of-Ensures path (some (number n)) = tt
  default_variant_of-Ensures path (some (string s)) = tt
  default_variant_of-Ensures path (some (array vs)) = tt
  default_variant_of-Ensures path (some (object fs)) = tt

  module _ (resolve : Reference) (h : (p name : String) → Resolves (resolve p name)) where
    targeting_rule-Ensures :
        (path : String) (v : JsonValue)
        → Ensures TargetResolved (rule resolve v path >>= λ r. ok (some r))
    unfolding Ensures TargetResolved
    targeting_rule-Ensures path v =
        Ensures->>= IsResolved TargetResolved (rule resolve v path) _
          (rule-Ensures resolve h v path) λ r resolved. resolved

    targeting_of-Ensures :
        (path : String) (o : Option JsonValue)
        → Ensures TargetResolved (targeting_of resolve path o)
    unfolding targeting_of Ensures TargetResolved
    targeting_of-Ensures path none = tt
    targeting_of-Ensures path (some null) = targeting_rule-Ensures path null
    targeting_of-Ensures path (some (bool b)) = targeting_rule-Ensures path (bool b)
    targeting_of-Ensures path (some (number n)) = targeting_rule-Ensures path (number n)
    targeting_of-Ensures path (some (string s)) = targeting_rule-Ensures path (string s)
    targeting_of-Ensures path (some (array vs)) = targeting_rule-Ensures path (array vs)
    targeting_of-Ensures path (some (object end)) = tt
    targeting_of-Ensures path (some (object (field k v rest))) =
        targeting_rule-Ensures path (object (field k v rest))

    flag-Ensures :
        (path key : String) (v : JsonValue) → Ensures FlagResolved (flag resolve path key v)
    unfolding flag Ensures FlagResolved
    flag-Ensures path key null = tt
    flag-Ensures path key (bool b) = tt
    flag-Ensures path key (number n) = tt
    flag-Ensures path key (string s) = tt
    flag-Ensures path key (array vs) = tt
    flag-Ensures path key (object fs) =
        let at = at_name path in
        Ensures->>= Anything FlagResolved (check_properties path (Json.entries fs)) _
          (check_properties-Ensures path (Json.entries fs))
          λ checked h0.
            Ensures->>= Anything FlagResolved (state (at "state") (Json.get_field "state" fs)) _
              (state-Ensures (at "state") (Json.get_field "state" fs))
              λ s h1.
                Ensures->>= Anything FlagResolved
                  (variants (at "variants") key (Json.get_field "variants" fs)) _
                  (variants-Ensures (at "variants") key (Json.get_field "variants" fs))
                  λ vs h2.
                    Ensures->>= Anything FlagResolved
                      (default_variant_of (at "defaultVariant")
                        (Json.get_field "defaultVariant" fs))
                      _
                      (default_variant_of-Ensures (at "defaultVariant")
                        (Json.get_field "defaultVariant" fs))
                      λ d h3.
                        Ensures->>= TargetResolved FlagResolved
                          (targeting_of resolve (at "targeting") (Json.get_field "targeting" fs)) _
                          (targeting_of-Ensures (at "targeting") (Json.get_field "targeting" fs))
                          λ t h4.
                            Ensures->>= Anything FlagResolved
                              (optional_metadata (at "metadata") (Json.get_field "metadata" fs)) _
                              (optional_metadata-Ensures (at "metadata")
                                (Json.get_field "metadata" fs))
                              λ m h5. h4

  evaluators_of-Ensures : (o : Option JsonValue) → Ensures Anything (evaluators_of o)
  unfolding evaluators_of Ensures
  evaluators_of-Ensures none = tt
  evaluators_of-Ensures (some null) = tt
  evaluators_of-Ensures (some (bool b)) = tt
  evaluators_of-Ensures (some (number n)) = tt
  evaluators_of-Ensures (some (string s)) = tt
  evaluators_of-Ensures (some (array vs)) = tt
  evaluators_of-Ensures (some (object fs)) = tt

  flags_of-Ensures : (o : Option JsonValue) → Ensures Anything (flags_of o)
  unfolding flags_of Ensures
  flags_of-Ensures none = tt
  flags_of-Ensures (some null) = tt
  flags_of-Ensures (some (bool b)) = tt
  flags_of-Ensures (some (number n)) = tt
  flags_of-Ensures (some (string s)) = tt
  flags_of-Ensures (some (array vs)) = tt
  flags_of-Ensures (some (object fs)) = tt

  flag_set-Ensures : (v : JsonValue) → Ensures SetResolved (flag_set v)
  unfolding flag_set Ensures SetResolved
  flag_set-Ensures null = tt
  flag_set-Ensures (bool b) = tt
  flag_set-Ensures (number n) = tt
  flag_set-Ensures (string s) = tt
  flag_set-Ensures (array vs) = tt
  flag_set-Ensures (object root) =
      Ensures->>= Anything SetResolved (evaluators_of (Json.get_field "$evaluators" root)) _
        (evaluators_of-Ensures (Json.get_field "$evaluators" root))
        λ evaluators h0.
          Ensures->>= Anything SetResolved (flags_of (Json.get_field "flags" root)) _
            (flags_of-Ensures (Json.get_field "flags" root))
            λ entries h1.
              let resolve = reference (suc (length evaluators)) evaluators [] in
              let resolves : (p name : String) → Resolves (resolve p name) = λ p name.
                reference-Ensures (suc (length evaluators)) evaluators [] p name
                  (omega (arith, remaining-nil evaluators)) in
              Ensures->>= (Each FlagResolved) SetResolved
                (collect (λ key v. flag resolve (at_name "flags" key) key v) [] entries) _
                (collect-Ensures FlagResolved _ [] entries
                  (λ key v. flag-Ensures resolve resolves (at_name "flags" key) key v)
                  (unfold Each in tt))
                λ flags each.
                  Ensures->>= Anything SetResolved
                    (optional_metadata "metadata" (Json.get_field "metadata" root)) _
                    (optional_metadata-Ensures "metadata" (Json.get_field "metadata" root))
                    λ m h2. each

  -- Parsing a document, whatever its evaluators refer to, returns a set with no `$ref` left in it, or an error of
  -- the program: the fuel, one more than there are evaluators, is never used up.
  pub from_json-Ensures :
      (parse : String → Option JsonValue) (document : String)
      → Ensures SetResolved (from_json parse document)
  unfolding from_json Ensures
  from_json-Ensures parse document = elim (Option-cases (parse document)) [
    | inl broken ↦ rw broken tt
    | inr (v, parsed) ↦ rw parsed (flag_set-Ensures v)
  ]
