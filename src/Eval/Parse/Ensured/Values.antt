-- ===== src/Eval/Parse/Ensured/Values.antt =====
-- The states, variants and metadata of a flag: what the parser returns for them has no lack of fuel.
use flaps.Prelude.{String, ◌==◌, Option, none, some, [], ◌∷◌, ok, err, ◌>>=◌, Bool-cases, inl, inr}
use Prim.Native.String.{compare}
use Prim.Native.Nat.{Ordering}
use flaps.Prelude.Map
use flaps.Prelude.Map.{BTreeMap}
use flaps.Json
use flaps.Json.{null, bool, number, string, array, object}
use flaps.Numbers.{Numbers}
use flaps.Eval.Coerce.{JsonValue}
use flaps.Eval.Parse.Errors.{Parsed}
use flaps.Eval.Parse.Values.{
  collect, state, bool_variant, string_variant, float_at, number_variant, object_variant,
  variants_of, variants, metadata_entry, metadata, optional_metadata,
}
use flaps.Eval.Parse.Ensured.{Ensures, Anything, Ensures->>=}

-- Every value of the map.
unfoldable pub Each {ℓ} : {V : Type ℓ} → (V → Type 0) → BTreeMap V → Type 0
Each P [] = Unit {0}
Each P ((k, v) ∷ m) = P v × Each P m

insert-Each {ℓ} :
    {V : Type ℓ} (P : V → Type 0) (k : String) (v : V) (m : BTreeMap V)
    → P v
    → Each P m
    → Each P (Map.insert k v m)
unfolding Each Map.insert
insert-Each P k v [] h hs = (h, tt)
insert-Each P k v ((j, w) ∷ m) h hs = by_order (compare k j) (insert-Each P k v m h hs.1)
  where
    by_order :
        (o : Ordering)
        → Each P (Map.insert k v m)
        → Each P (elim o [
          | Ordering.lt ↦ (k, v) ∷ (j, w) ∷ m
          | Ordering.eq ↦ (k, v) ∷ m
          | Ordering.gt ↦ (j, w) ∷ Map.insert k v m
        ])
    by_order Ordering.lt rest = (h, hs)
    by_order Ordering.eq rest = (h, hs.1)
    by_order Ordering.gt rest = (hs.0, rest)

pub collect-Ensures {ℓ κ} :
    {A : Type ℓ} {B : Type κ} (P : B → Type 0) (f : String → A → Parsed B) (m : BTreeMap B)
    (entries : BTreeMap A)
    → ((k : String) (a : A) → Ensures P (f k a))
    → Each P m
    → Ensures (Each P) (collect f m entries)
unfolding collect Ensures
collect-Ensures P f m [] h hs = hs
collect-Ensures P f m ((k, a) ∷ rest) h hs =
    Ensures->>= P (Each P) (f k a) _ (h k a)
      λ b first. collect-Ensures P f (Map.insert k b m) rest h (insert-Each P k b m first hs)

-- A map that is made one more constructor's argument.
collected-Ensures {ℓ κ μ} :
    {A : Type ℓ} {B : Type κ} {C : Type μ} (f : String → A → Parsed B) (entries : BTreeMap A)
    (make : BTreeMap B → C)
    → ((k : String) (a : A) → Ensures Anything (f k a))
    → Ensures Anything (collect f [] entries >>= λ m. ok (make m))
unfolding Ensures Each
collected-Ensures f entries make h =
    Ensures->>= (Each Anything) Anything (collect f [] entries) _
      (collect-Ensures Anything f [] entries h tt) λ m hs. tt

anything {ℓ} : {A : Type ℓ} (P : A → Type 0) (m : Parsed A) → Ensures P m → Ensures Anything m
unfolding Ensures
anything P (ok a) h = tt
anything P (err e) h = h

module _ ⦃num : Numbers⦄ where
  pub state-Ensures : (path : String) (o : Option JsonValue) → Ensures Anything (state path o)
  unfolding state Ensures
  state-Ensures path none = tt
  state-Ensures path (some null) = tt
  state-Ensures path (some (bool b)) = tt
  state-Ensures path (some (number n)) = tt
  state-Ensures path (some (string s)) = elim (Bool-cases (s == "ENABLED")) [
    | inl on ↦ rw on tt
    | inr other ↦ elim (Bool-cases (s == "DISABLED")) [
      | inl off ↦ rw (other, off) tt
      | inr unknown ↦ rw (other, unknown) tt
    ]
  ]
  state-Ensures path (some (array vs)) = tt
  state-Ensures path (some (object fs)) = tt

  float_at-Ensures :
      (path reason : String) (o : Option num.F64) → Ensures Anything (float_at path reason o)
  unfolding float_at Ensures
  float_at-Ensures path reason none = tt
  float_at-Ensures path reason (some x) = tt

  bool_variant-Ensures :
      (flag_key name : String) (v : JsonValue) → Ensures Anything (bool_variant flag_key name v)
  unfolding bool_variant Ensures
  bool_variant-Ensures flag_key name null = tt
  bool_variant-Ensures flag_key name (bool b) = tt
  bool_variant-Ensures flag_key name (number n) = tt
  bool_variant-Ensures flag_key name (string s) = tt
  bool_variant-Ensures flag_key name (array vs) = tt
  bool_variant-Ensures flag_key name (object fs) = tt

  string_variant-Ensures :
      (flag_key name : String) (v : JsonValue) → Ensures Anything (string_variant flag_key name v)
  unfolding string_variant Ensures
  string_variant-Ensures flag_key name null = tt
  string_variant-Ensures flag_key name (bool b) = tt
  string_variant-Ensures flag_key name (number n) = tt
  string_variant-Ensures flag_key name (string s) = tt
  string_variant-Ensures flag_key name (array vs) = tt
  string_variant-Ensures flag_key name (object fs) = tt

  object_variant-Ensures :
      (flag_key name : String) (v : JsonValue) → Ensures Anything (object_variant flag_key name v)
  unfolding object_variant Ensures
  object_variant-Ensures flag_key name null = tt
  object_variant-Ensures flag_key name (bool b) = tt
  object_variant-Ensures flag_key name (number n) = tt
  object_variant-Ensures flag_key name (string s) = tt
  object_variant-Ensures flag_key name (array vs) = tt
  object_variant-Ensures flag_key name (object fs) = tt

  number_variant-Ensures :
      (path flag_key name : String) (v : JsonValue)
      → Ensures Anything (number_variant path flag_key name v)
  unfolding number_variant Ensures
  number_variant-Ensures path flag_key name null = tt
  number_variant-Ensures path flag_key name (bool b) = tt
  number_variant-Ensures path flag_key name (number n) = float_at-Ensures _ _ (num.as_f64 n)
  number_variant-Ensures path flag_key name (string s) = tt
  number_variant-Ensures path flag_key name (array vs) = tt
  number_variant-Ensures path flag_key name (object fs) = tt

  variants_of-Ensures :
      (path flag_key : String) (m : BTreeMap JsonValue)
      → Ensures Anything (variants_of path flag_key m)
  unfolding variants_of Ensures
  variants_of-Ensures path flag_key [] = tt
  variants_of-Ensures path flag_key ((k, null) ∷ m) = tt
  variants_of-Ensures path flag_key ((k, bool b) ∷ m) =
      collected-Ensures (bool_variant flag_key) ((k, bool b) ∷ m) _ (bool_variant-Ensures flag_key)
  variants_of-Ensures path flag_key ((k, number n) ∷ m) =
      collected-Ensures (number_variant path flag_key) ((k, number n) ∷ m) _
        (number_variant-Ensures path flag_key)
  variants_of-Ensures path flag_key ((k, string s) ∷ m) =
      collected-Ensures (string_variant flag_key) ((k, string s) ∷ m) _
        (string_variant-Ensures flag_key)
  variants_of-Ensures path flag_key ((k, array vs) ∷ m) = tt
  variants_of-Ensures path flag_key ((k, object fs) ∷ m) =
      collected-Ensures (object_variant flag_key) ((k, object fs) ∷ m) _
        (object_variant-Ensures flag_key)

  pub variants-Ensures :
      (path flag_key : String) (o : Option JsonValue) → Ensures Anything (variants path flag_key o)
  unfolding variants Ensures
  variants-Ensures path flag_key none = tt
  variants-Ensures path flag_key (some null) = tt
  variants-Ensures path flag_key (some (bool b)) = tt
  variants-Ensures path flag_key (some (number n)) = tt
  variants-Ensures path flag_key (some (string s)) = tt
  variants-Ensures path flag_key (some (array vs)) = tt
  variants-Ensures path flag_key (some (object fs)) =
      variants_of-Ensures path flag_key (Json.entries fs)

  metadata_entry-Ensures :
      (path key : String) (v : JsonValue) → Ensures Anything (metadata_entry path key v)
  unfolding metadata_entry Ensures
  metadata_entry-Ensures path key null = tt
  metadata_entry-Ensures path key (bool b) = tt
  metadata_entry-Ensures path key (number n) =
      Ensures->>= Anything Anything (float_at _ _ (num.as_f64 n)) _
        (float_at-Ensures _ _ (num.as_f64 n)) λ x known. tt
  metadata_entry-Ensures path key (string s) = tt
  metadata_entry-Ensures path key (array vs) = tt
  metadata_entry-Ensures path key (object fs) = tt

  metadata-Ensures : (path : String) (v : JsonValue) → Ensures Anything (metadata path v)
  unfolding metadata Ensures Each
  metadata-Ensures path null = tt
  metadata-Ensures path (bool b) = tt
  metadata-Ensures path (number n) = tt
  metadata-Ensures path (string s) = tt
  metadata-Ensures path (array vs) = tt
  metadata-Ensures path (object fs) = anything (Each Anything) _ (
      collect-Ensures Anything (metadata_entry path) [] (Json.entries fs)
        (metadata_entry-Ensures path) tt)

  pub optional_metadata-Ensures :
      (path : String) (o : Option JsonValue) → Ensures Anything (optional_metadata path o)
  unfolding optional_metadata Ensures
  optional_metadata-Ensures path none = tt
  optional_metadata-Ensures path (some v) = metadata-Ensures path v
