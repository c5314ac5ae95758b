-- ===== src/Compiler/Meaning/Values.antt =====
-- A compiled flag has a value for every variant that the domain's flag declares.
use flaps.Prelude.{
  String, ◌≡◌, refl, subst, eq_iff, ◌==◌, ◌⊎◌, true, inl, inr, Option, none, some, [], ◌∷◌, ok,
  >>=-eq-ok, ok-injective, Bool-cases,
}
use flaps.Prelude.Map
use flaps.Prelude.Map.{BTreeMap}
use flaps.Prelude.Map.Laws.{get-insert, get-insert-other}
use flaps.Numbers.{Numbers}
use flaps.Eval.Coerce.{JsonValue}
use flaps.Eval.Model.{VariantsOf}
use flaps.Eval.Evaluate.{map_some, variant_value}
use flaps.Domain.Errors.{ValueType}
use flaps.Domain.Variant.{contains, is_some}
use flaps.Compiler.Errors.{Compiled}
use flaps.Compiler.Flag.{
  DomainVariants, DomainValue, collect, extract_entries, extract_value, variants_of_type,
  compile_variants, bool_entry, string_entry, number_entry, object_entry,
}

-- Every key that was there is there after an insertion, with the inserted one.
insert-is_some {ℓ} :
    {V : Type ℓ} (k j : String) (v : V) (m : BTreeMap V)
    → ((k == j) ≡ true) ⊎ (is_some (Map.get j m) ≡ true)
    → is_some (Map.get j (Map.insert k v m)) ≡ true
insert-is_some k j v m h = elim (Bool-cases (k == j)) [
  | inl same ↦
      subst (λ x. is_some (Map.get x (Map.insert k v m)) ≡ true) ((eq_iff k j).0 same)
        (rw (get-insert k v m) refl)
  | inr different ↦
      rw (get-insert-other k j v m different) (elim h [ inl same ↦ cc | inr there ↦ there ])
]

-- The collected map has the keys of the map it started with, and all those that were walked.
collect-is_some {ℓ κ} :
    {A : Type ℓ} {B : Type κ} (f : String → A → Compiled B) (m : BTreeMap B) (entries : BTreeMap A)
    {collected : BTreeMap B} (j : String)
    → collect f m entries ≡ ok collected
    → (is_some (Map.get j m) ≡ true) ⊎ (is_some (Map.get j entries) ≡ true)
    → is_some (Map.get j collected) ≡ true
unfolding collect Map.get
collect-is_some f m [] j e (inl there) = rw (← ok-injective e) there
collect-is_some f m [] j e (inr walked) = cc
collect-is_some f m ((k, a) ∷ rest) j e h =
    let (b, made, more) = >>=-eq-ok (f k a) _ e in
    collect-is_some f (Map.insert k b m) rest j more (elim h [
      | inl there ↦ inl (insert-is_some k j b m (inr there))
      | inr walked ↦ elim (Bool-cases (k == j)) [
        | inl same ↦ inl (insert-is_some k j b m (inl same))
        | inr different ↦ inr (rw different at walked)
      ]
    ])

module _ ⦃num : Numbers⦄ where
  map_some-is_some {ℓ} :
      {A : Type ℓ} (f : A → JsonValue) (o : Option A)
      → is_some o ≡ true
      → is_some (map_some f o) ≡ true
  map_some-is_some f none h = h
  map_some-is_some f (some a) h = refl

  variants_of_type-is_some :
      (t : ValueType) (flag : String) (entries : BTreeMap DomainValue) {compiled : VariantsOf}
      (name : String)
      → variants_of_type t flag entries ≡ ok compiled
      → is_some (Map.get name entries) ≡ true
      → is_some (variant_value compiled name) ≡ true
  unfolding variants_of_type variant_value
  variants_of_type-is_some ValueType.boolean flag entries name e h =
      let (m, e', k) = >>=-eq-ok (collect (bool_entry flag) [] entries) _ e in
      rw (← ok-injective k)
        (map_some-is_some _ (Map.get name m) (collect-is_some _ [] entries name e' (inr h)))
  variants_of_type-is_some ValueType.string flag entries name e h =
      let (m, e', k) = >>=-eq-ok (collect (string_entry flag) [] entries) _ e in
      rw (← ok-injective k)
        (map_some-is_some _ (Map.get name m) (collect-is_some _ [] entries name e' (inr h)))
  variants_of_type-is_some ValueType.number flag entries name e h =
      let (m, e', k) = >>=-eq-ok (collect (number_entry flag) [] entries) _ e in
      rw (← ok-injective k)
        (map_some-is_some _ (Map.get name m) (collect-is_some _ [] entries name e' (inr h)))
  variants_of_type-is_some ValueType.object flag entries name e h =
      let (m, e', k) = >>=-eq-ok (collect (object_entry flag) [] entries) _ e in
      rw (← ok-injective k)
        (map_some-is_some _ (Map.get name m) (collect-is_some _ [] entries name e' (inr h)))

  pub compile_variants-is_some :
      (flag : String) (domain : DomainVariants) {compiled : VariantsOf} (name : String)
      → compile_variants flag domain ≡ ok compiled
      → contains domain name ≡ true
      → is_some (variant_value compiled name) ≡ true
  unfolding compile_variants extract_entries contains
  compile_variants-is_some flag domain name e h =
      let (entries, e', k) = >>=-eq-ok (extract_entries flag domain) _ e in
      variants_of_type-is_some domain.value_type flag entries name k
        (collect-is_some (extract_value flag) [] domain.entries name e' (inr h))
