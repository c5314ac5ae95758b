-- ===== src/Eval/Parse/Ensured.antt =====
-- What the parser ensures: a postcondition of what it returns, and no lack of fuel where it returns an error.
-- Here the argument forms, over arguments whose rules have no `$ref` left in them.
pub mod Operators
pub mod Forms
pub mod Rules
pub mod References
pub mod Values
pub mod Documents
use flaps.Prelude.{
  ℕ, ◌+◌, String, Bool, true, false, ◌||◌, Option, none, some, List, [], ◌∷◌, ok, err, ◌>>=◌, All,
  ltb, length, if◌then◌else◌, Bool-cases, Option-cases, inl, inr,
}
use flaps.Json.{Value, null, bool, number, string, array, object}
use flaps.Json
use flaps.Numbers.{Numbers}
use flaps.Eval.Targeting
use flaps.Eval.Targeting.{Rule, SemVerOp, Bucket}
use flaps.Eval.Coerce.{JsonValue}
use flaps.Eval.Apply.Resolved.{IsResolved, AllResolved}
use flaps.Eval.Parse.Errors.{ParseError, Parsed, out_of_fuel, at_index}
use flaps.Eval.Parse.Rule.{
  Argument, rules_from, no_elements, number_rule, literal_of, rules, unary, binary, ternary,
  variadic, bounded, missing_some_of, sem_ver_of, fractional_of, number_literal, missing_some_with,
  is_array, as_u64, op_of, op_of_symbol,
}

unfoldable pub IsDefinite : ParseError → Type 0
IsDefinite out_of_fuel = ⊥
IsDefinite e = Unit {0}

unfoldable pub Ensures {ℓ} : {A : Type ℓ} → (A → Type 0) → Parsed A → Type 0
unfolding IsDefinite
Ensures P (ok a) = P a
Ensures P (err e) = IsDefinite e

abbrev pub Anything {ℓ} : {A : Type ℓ} → A → Type 0
Anything a = Unit {0}

pub Ensures->>= {ℓ κ} :
    {A : Type ℓ} {B : Type κ} (P : A → Type 0) (Q : B → Type 0) (m : Parsed A) (f : A → Parsed B)
    → Ensures P m
    → ((a : A) → P a → Ensures Q (f a))
    → Ensures Q (m >>= f)
unfolding Ensures
Ensures->>= P Q (ok a) f h k = k a h
Ensures->>= P Q (err e) f h k = h

pub Ensures-if {ℓ} :
    {A : Type ℓ} (P : A → Type 0) (b : Bool) (m n : Parsed A)
    → Ensures P m
    → Ensures P n
    → Ensures P (if b then m else n)
Ensures-if P true m n h k = h
Ensures-if P false m n h k = k

module _ ⦃num : Numbers⦄ where
  abbrev pub Resolves : Parsed (Rule num.F64) → Type 0
  Resolves = Ensures IsResolved

  abbrev pub EachResolved : List (Rule num.F64) → Type 0
  EachResolved rs = AllResolved (Targeting.of_list rs)

  -- An argument whose rules have no `$ref` left in them, at every path.
  pub record IsGood (a : Argument num.F64 num.Number) : Type 0 where
    pub parsed : (path : String) → Ensures IsResolved (a.parse path)
    pub elements : (path : String) → Ensures EachResolved (a.parse_elements path)

  abbrev Args : Type 0
  Args = List (Argument num.F64 num.Number)

  rules_from-Ensures :
      (i : ℕ) (path : String) (args : Args)
      → All IsGood args
      → Ensures EachResolved (rules_from i path args)
  unfolding rules_from Ensures AllResolved
  rules_from-Ensures i path [] h = tt
  rules_from-Ensures i path (a ∷ rest) h =
      Ensures->>= IsResolved EachResolved (a.parse (at_index path i)) _
        (h.0.parsed (at_index path i))
        λ r resolved.
          Ensures->>= EachResolved EachResolved (rules_from (i + 1) path rest) _
            (rules_from-Ensures (i + 1) path rest h.1) λ rs others. (resolved, others)

  pub rules-Ensures :
      (path : String) (args : Args) → All IsGood args → Ensures EachResolved (rules path args)
  unfolding rules
  rules-Ensures = rules_from-Ensures 0

  pub unary-Ensures :
      (operator : String) (make : Rule num.F64 → Rule num.F64) (args : Args) (path : String)
      → All IsGood args
      → ((r : Rule num.F64) → IsResolved r → IsResolved (make r))
      → Resolves (unary operator make args path)
  unfolding unary Ensures
  unary-Ensures operator make [] path h k = tt
  unary-Ensures operator make (a ∷ []) path h k =
      Ensures->>= IsResolved IsResolved (a.parse (at_index path 0)) _ (h.0.parsed _) k
  unary-Ensures operator make (a ∷ b ∷ rest) path h k = tt

  pub binary-Ensures :
      (operator : String) (make : Rule num.F64 → Rule num.F64 → Rule num.F64) (args : Args)
      (path : String)
      → All IsGood args
      → ((r s : Rule num.F64) → IsResolved r → IsResolved s → IsResolved (make r s))
      → Resolves (binary operator make args path)
  unfolding binary Ensures
  binary-Ensures operator make [] path h k = tt
  binary-Ensures operator make (a ∷ []) path h k = tt
  binary-Ensures operator make (a ∷ b ∷ []) path h k =
      Ensures->>= IsResolved IsResolved (a.parse (at_index path 0)) _ (h.0.parsed _) λ r first.
        Ensures->>= IsResolved IsResolved (b.parse (at_index path 1)) _ (h.1.0.parsed _)
          λ s second. k r s first second
  binary-Ensures operator make (a ∷ b ∷ c ∷ rest) path h k = tt

  pub ternary-Ensures :
      (operator : String) (make : Rule num.F64 → Rule num.F64 → Rule num.F64 → Rule num.F64)
      (args : Args) (path : String)
      → All IsGood args
      → ((r s t : Rule num.F64)
          → IsResolved r
          → IsResolved s
          → IsResolved t
          → IsResolved (make r s t))
      → Resolves (ternary operator make args path)
  unfolding ternary Ensures
  ternary-Ensures operator make [] path h k = tt
  ternary-Ensures operator make (a ∷ []) path h k = tt
  ternary-Ensures operator make (a ∷ b ∷ []) path h k = tt
  ternary-Ensures operator make (a ∷ b ∷ c ∷ []) path h k =
      Ensures->>= IsResolved IsResolved (a.parse (at_index path 0)) _ (h.0.parsed _) λ r first.
        Ensures->>= IsResolved IsResolved (b.parse (at_index path 1)) _ (h.1.0.parsed _) λ s second.
          Ensures->>= IsResolved IsResolved (c.parse (at_index path 2)) _ (h.1.1.0.parsed _)
            λ t third. k r s t first second third
  ternary-Ensures operator make (a ∷ b ∷ c ∷ d ∷ rest) path h k = tt

  -- A list of operands, once their number is right.
  listed-Ensures :
      (make : Targeting.Rules num.F64 → Rule num.F64) (args : Args) (path : String)
      → All IsGood args
      → ((rs : Targeting.Rules num.F64) → AllResolved rs → IsResolved (make rs))
      → Resolves (rules path args >>= λ rs. ok (make (Targeting.of_list rs)))
  unfolding Ensures
  listed-Ensures make args path h k =
      Ensures->>= EachResolved IsResolved (rules path args) _ (rules-Ensures path args h)
        λ rs. k (Targeting.of_list rs)

  pub variadic-Ensures :
      (operator : String) (make : Targeting.Rules num.F64 → Rule num.F64) (minimum : ℕ)
      (args : Args) (path : String)
      → All IsGood args
      → ((rs : Targeting.Rules num.F64) → AllResolved rs → IsResolved (make rs))
      → Resolves (variadic operator make minimum args path)
  unfolding variadic Ensures
  variadic-Ensures operator make minimum args path h k =
      elim (Bool-cases (ltb (length args) minimum)) [
        | inl few ↦ rw few tt
        | inr enough ↦ rw enough (listed-Ensures make args path h k)
      ]

  pub bounded-Ensures :
      (operator : String) (make : Targeting.Rules num.F64 → Rule num.F64) (minimum maximum : ℕ)
      (args : Args) (path : String)
      → All IsGood args
      → ((rs : Targeting.Rules num.F64) → AllResolved rs → IsResolved (make rs))
      → Resolves (bounded operator make minimum maximum args path)
  unfolding bounded Ensures
  bounded-Ensures operator make minimum maximum args path h k =
      elim (Bool-cases (ltb (length args) minimum || ltb maximum (length args))) [
        | inl outside ↦ rw outside tt
        | inr inside ↦ rw inside (listed-Ensures make args path h k)
      ]
