-- ===== src/Json.antt =====
-- `serde_json::Value` and its map, over the number type `N` of the crate. The crate is built without
-- `preserve_order`, so an object is a map in the order of its keys.
use flaps.Prelude.{String, ◌≡◌, refl, ap, Bool, Option, none, some, List, [], ◌∷◌}
use flaps.Prelude.Map
use flaps.Prelude.Map.{BTreeMap}

-- `Items` and `Fields` are the lists inside an array and an object.
mutual
  pub data Value (N : Type 0) : Type 0 where
    null : Value N
    bool : Bool → Value N
    number : N → Value N
    string : String → Value N
    array : Items N → Value N
    object : Fields N → Value N

  pub data Items (N : Type 0) : Type 0 where
    nil : Items N
    cons : Value N → Items N → Items N

  pub data Fields (N : Type 0) : Type 0 where
    end : Fields N
    field : String → Value N → Fields N → Fields N

module _ {N : Type 0} where
  abbrev pub items : Items N → List (Value N)
  items nil = []
  items (cons v vs) = v ∷ items vs

  abbrev pub of_items : List (Value N) → Items N
  of_items [] = nil
  of_items (v ∷ vs) = cons v (of_items vs)

  abbrev pub entries : Fields N → BTreeMap (Value N)
  entries end = []
  entries (field k v fs) = (k, v) ∷ entries fs

  abbrev pub of_entries : BTreeMap (Value N) → Fields N
  of_entries [] = end
  of_entries ((k, v) ∷ m) = field k v (of_entries m)

  -- `Map::get`, and `Value::get` with a string.
  abbrev pub get_field : String → Fields N → Option (Value N)
  get_field k fs = Map.get k (entries fs)

  abbrev pub get : String → Value N → Option (Value N)
  get k (object fs) = get_field k fs
  get k v = none

  -- `Map::insert`.
  abbrev pub insert : String → Value N → Fields N → Fields N
  insert k v fs = of_entries (Map.insert k v (entries fs))

  abbrev pub as_str : Value N → Option String
  as_str (string s) = some s
  as_str v = none

  pub items-of_items : (vs : List (Value N)) → items (of_items vs) ≡ vs
  items-of_items [] = refl
  items-of_items (v ∷ vs) = ap (λ xs. v ∷ xs) (items-of_items vs)

  pub entries-of_entries : (m : BTreeMap (Value N)) → entries (of_entries m) ≡ m
  entries-of_entries [] = refl
  entries-of_entries ((k, v) ∷ m) = ap (λ xs. (k, v) ∷ xs) (entries-of_entries m)

  pub of_entries-entries : (fs : Fields N) → of_entries (entries fs) ≡ fs
  of_entries-entries end = refl
  of_entries-entries (field k v fs) = ap (λ r. field k v r) (of_entries-entries fs)
