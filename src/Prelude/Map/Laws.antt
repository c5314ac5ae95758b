-- ===== src/Prelude/Map/Laws.antt =====
-- What looking a key up finds after an insertion and after an extension.
use Prim.Native.String.{String, compare}
use Prim.Native.Nat.{Ordering}
use mathlib.Core.Option.{some}
use mathlib.Core.List.{[], ◌∷◌}
use mathlib.Core.Path.{◌≡◌, refl, sym, subst, ◌∙◌}
use text.Mathlib.Text.{◌==◌}
use text.Mathlib.TextEquality.{path_by_compare, eq_iff}
use text.Mathlib.TextPositions.{eq_refl, compare_refl}
use mathlib.Core.Logic.{inl, inr}
use mathlib.Core.Bool.{false}
use flaps.Prelude.Tests.{Bool-cases}
use flaps.Prelude.Map.{BTreeMap, get, insert}

-- Texts that are not in order are different.
not_equal : (k j : String) → compare k j ≡ Ordering.gt → (j == k) ≡ false
not_equal k j e = elim (Bool-cases (j == k)) [
  | inl same ↦
      let p : j ≡ k = (eq_iff j k).0 same in
      let q : Ordering.eq ≡ Ordering.gt =
        sym (compare_refl k) ∙ subst (λ x. compare k x ≡ Ordering.gt) p e in
      cc
  | inr different ↦ different
]

module _ {ℓ} {V : Type ℓ} where
  pub get-insert : (k : String) (v : V) (m : BTreeMap V) → get k (insert k v m) ≡ some v
  unfolding get insert
  get-insert k v [] = rw (eq_refl k) refl
  get-insert k v ((j, w) ∷ m) = by_order (compare k j) refl (get-insert k v m)
    where
      by_order :
          (o : Ordering)
          → compare k j ≡ o
          → get k (insert k v m) ≡ some v
          → get k (insert k v ((j, w) ∷ m)) ≡ some v
      by_order Ordering.lt e found = rw (insert, e, eq_refl k) refl
      by_order Ordering.eq e found = rw (insert, e, eq_refl k) refl
      by_order Ordering.gt e found = rw (insert, e, not_equal k j e) found

  pub get-insert-other :
      (k j : String) (v : V) (m : BTreeMap V) → (k == j) ≡ false → get j (insert k v m) ≡ get j m
  unfolding get insert
  get-insert-other k j v [] h = rw h refl
  get-insert-other k j v ((i, w) ∷ m) h = by_order (compare k i) refl (get-insert-other k j v m h)
    where
      by_order :
          (o : Ordering)
          → compare k i ≡ o
          → get j (insert k v m) ≡ get j m
          → get j (insert k v ((i, w) ∷ m)) ≡ get j ((i, w) ∷ m)
      by_order Ordering.lt e same = rw (insert, e, h) refl
      by_order Ordering.eq e same =
          rw (insert, e, h, subst (λ x. (x == j) ≡ false) (path_by_compare k i e) h) refl
      by_order Ordering.gt e same = rw (insert, e, same) refl
