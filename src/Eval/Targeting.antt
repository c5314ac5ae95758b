-- ===== src/Eval/Targeting.antt =====
-- The targeting rules of crates/flaps-eval/src/targeting.rs, over the type `F` of `f64`.
use flaps.Prelude.{ℕ, String, ◌≡◌, refl, ap, Bool, Option, List, [], ◌∷◌}

pub data Literal (F : Type 0) : Type 0 where
  null : Literal F
  bool : Bool → Literal F
  number : F → Literal F
  string : String → Literal F

pub data SemVerOp : Type 0 where
  eq neq lt lte gt gte caret_match tilde_match : SemVerOp

pub record Bucket : Type 0 where
  pub variant : String
  pub weight : ℕ

-- `Rules` is `Vec<Rule>`. The optional expression of `Fractional` is two constructors, since a data
-- type cannot hold an `Option` of itself.
mutual
  pub data Rule (F : Type 0) : Type 0 where
    literal : Literal F → Rule F
    array : Rules F → Rule F
    var : String → Option (Literal F) → Rule F
    missing : Rules F → Rule F
    missing_some : ℕ → Rules F → Rule F
    if_chain : Rules F → Rule F
    and or : Rules F → Rule F
    not truthy : Rule F → Rule F
    eq strict_eq neq strict_neq gt gte : Rule F → Rule F → Rule F
    lt lte add sub mul : Rules F → Rule F
    div mod_rule : Rule F → Rule F → Rule F
    min max cat substr : Rules F → Rule F
    in_rule : Rule F → Rule F → Rule F
    merge : Rules F → Rule F
    map filter : Rule F → Rule F → Rule F
    reduce : Rule F → Rule F → Rule F → Rule F
    all none some starts_with ends_with : Rule F → Rule F → Rule F
    sem_ver : Rule F → SemVerOp → Rule F → Rule F
    fractional : List Bucket → Rule F
    fractional_by : Rule F → List Bucket → Rule F
    ref : String → Rule F

  pub data Rules (F : Type 0) : Type 0 where
    nil : Rules F
    cons : Rule F → Rules F → Rules F

module _ {F : Type 0} where
  abbrev pub of_list : List (Rule F) → Rules F
  of_list [] = nil
  of_list (r ∷ rs) = cons r (of_list rs)

  abbrev pub to_list : Rules F → List (Rule F)
  to_list nil = []
  to_list (cons r rs) = r ∷ to_list rs

  pub to_list-of_list : (rs : List (Rule F)) → to_list (of_list rs) ≡ rs
  to_list-of_list [] = refl
  to_list-of_list (r ∷ rs) = ap (λ x. r ∷ x) (to_list-of_list rs)
