-- ===== src/Domain/Variant.antt =====
-- crates/flaps-domain/src/variant.rs. The source's `HashMap` is a map in the order of its keys here: which
-- of several mismatches is reported first is the only thing that the order decides.
pub mod Checks
use flaps.Prelude.{
  String, Bool, true, false, Option, some, none, List, [], ◌∷◌, ok, err, ◌>>◌, if◌then◌else◌,
}
use flaps.Prelude.Map
use flaps.Prelude.Map.{BTreeMap}
use flaps.Json.{Value}
use flaps.Domain.Errors.{ValueType, boolean, object, Checked, variant_type_mismatch, empty_variants}

pub data VariantValue (F N : Type 0) : Type 0 where
  bool : Bool → VariantValue F N
  string : String → VariantValue F N
  number : F → VariantValue F N
  json : Value N → VariantValue F N

pub record Variants (F N : Type 0) : Type 0 where
  pub value_type : ValueType
  pub entries : BTreeMap (VariantValue F N)

abbrev pub is_some {ℓ} : {A : Type ℓ} → Option A → Bool
is_some none = false
is_some (some a) = true

module _ {F N : Type 0} where
  unfoldable pub matches_type : VariantValue F N → ValueType → Bool
  matches_type (bool b) boolean = true
  matches_type (string s) ValueType.string = true
  matches_type (number x) ValueType.number = true
  matches_type (json v) object = true
  matches_type v t = false

  unfoldable pub check_entries : ValueType → BTreeMap (VariantValue F N) → Checked (Unit {0})
  unfolding matches_type
  check_entries t [] = ok tt
  check_entries t ((key, value) ∷ rest) =
      let others = check_entries t rest in
      if matches_type value t then others else err (variant_type_mismatch key t)

  unfoldable pub from_entries : ValueType → BTreeMap (VariantValue F N) → Checked (Variants F N)
  unfolding check_entries
  from_entries t [] = err empty_variants
  from_entries t (e ∷ m) = do
    check_entries t (e ∷ m)
    ok (record { value_type = t; entries = e ∷ m })

  -- `Variants::new`: the pairs are collected, and a later one takes the place of an earlier one.
  unfoldable pub new : ValueType → List (String × VariantValue F N) → Checked (Variants F N)
  unfolding from_entries
  new t pairs = from_entries t (Map.extend [] pairs)

  unfoldable pub contains : Variants F N → String → Bool
  contains vs key = is_some (Map.get key vs.entries)
