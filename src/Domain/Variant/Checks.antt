-- ===== src/Domain/Variant/Checks.antt =====
-- When `Variants::new` accepts a list of variants.
use flaps.Prelude.{
  String, ◌≡◌, ◌≢◌, ◌↔◌, refl, true, List, [], ◌∷◌, ok, All, Bool-cases, inl, inr, err≢ok,
  >>=-eq-ok,
}
use flaps.Prelude.Map
use flaps.Prelude.Map.{BTreeMap}
use flaps.Domain.Errors.{ValueType}
use flaps.Domain.Variant.{VariantValue, matches_type, check_entries, from_entries, new}

module _ {F N : Type 0} (t : ValueType) where
  -- A variant whose value has the type.
  abbrev pub HasType : String × VariantValue F N → Type 0
  HasType e = matches_type e.1 t ≡ true

  check_entries-All : (m : BTreeMap (VariantValue F N)) → check_entries t m ≡ ok tt → All HasType m
  unfolding check_entries
  check_entries-All [] h = tt
  check_entries-All ((key, value) ∷ rest) h = elim (Bool-cases (matches_type value t)) [
    | inl fits ↦ (fits, check_entries-All rest (rw fits at h))
    | inr other ↦ absurd (err≢ok (rw other at h))
  ]

  All-check_entries : (m : BTreeMap (VariantValue F N)) → All HasType m → check_entries t m ≡ ok tt
  unfolding check_entries
  All-check_entries [] h = refl
  All-check_entries ((key, value) ∷ rest) h = rw h.0 (All-check_entries rest h.1)

  from_entries_iff :
      (m : BTreeMap (VariantValue F N))
      → (from_entries t m ≡ ok (record { value_type = t; entries = m }))
        ↔ ((m ≢ []) × All HasType m)
  unfolding from_entries
  from_entries_iff [] = (λ h. absurd (err≢ok h), λ h. absurd (h.0 refl))
  from_entries_iff (e ∷ m) = (
    λ h.
        let (u, checked, k) = >>=-eq-ok (check_entries t (e ∷ m)) _ h in
        ((λ p. cc), check_entries-All (e ∷ m) checked),
    λ h. rw (All-check_entries (e ∷ m) h.1) refl,
  )

  -- The collected variants are accepted exactly if there is one and the value of each has the type.
  pub new_iff :
      (pairs : List (String × VariantValue F N))
      → (new t pairs ≡ ok (record { value_type = t; entries = Map.extend [] pairs }))
        ↔ ((Map.extend [] pairs ≢ []) × All HasType (Map.extend [] pairs))
  unfolding new
  new_iff pairs = from_entries_iff (Map.extend [] pairs)
