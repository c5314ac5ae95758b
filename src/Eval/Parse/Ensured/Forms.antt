-- ===== src/Eval/Parse/Ensured/Forms.antt =====
-- The arguments of `missing_some`, `sem_ver` and `fractional`.
use flaps.Prelude.{
  ℕ, ◌+◌, ◌^◌, String, Option, none, some, List, [], ◌∷◌, ok, ◌>>=◌, All, ltb, Bool-cases,
  Option-cases, inl, inr,
}
use flaps.Json.{Value, null, bool, number, string, array, object}
use flaps.Json
use flaps.Numbers.{Numbers}
use flaps.Eval.Targeting.{Rule}
use flaps.Eval.Coerce.{JsonValue}
use flaps.Eval.Apply.Resolved.{IsResolved}
use flaps.Eval.Parse.Errors.{at_index}
use flaps.Eval.Parse.Rule.{
  Argument, number_rule, literal_of, missing_some_of, sem_ver_of, fractional_of, number_literal,
  missing_some_with, is_array, as_u64, op_of, op_of_symbol, weighted, bad_bucket, bucket,
  buckets_from, fractional_args,
}
use flaps.Eval.Parse.Ensured.{Ensures, Anything, Ensures->>=, Resolves, EachResolved, IsGood}

module _ ⦃num : Numbers⦄ where
  abbrev Args : Type 0
  Args = List (Argument num.F64 num.Number)

  pub number_rule-Ensures : (path : String) (o : Option num.F64) → Resolves (number_rule path o)
  unfolding number_rule Ensures IsResolved
  number_rule-Ensures path none = tt
  number_rule-Ensures path (some x) = tt

  number_literal-Ensures :
      (path : String) (o : Option num.F64) → Ensures Anything (number_literal path o)
  unfolding number_literal Ensures
  number_literal-Ensures path none = tt
  number_literal-Ensures path (some x) = tt

  pub literal_of-Ensures : (path : String) (v : JsonValue) → Ensures Anything (literal_of path v)
  unfolding literal_of Ensures
  literal_of-Ensures path null = tt
  literal_of-Ensures path (bool b) = tt
  literal_of-Ensures path (number n) = number_literal-Ensures path (num.as_f64 n)
  literal_of-Ensures path (string s) = tt
  literal_of-Ensures path (array vs) = tt
  literal_of-Ensures path (object fs) = tt

  missing_some_with-Ensures :
      (n : Option ℕ) (keys : Argument num.F64 num.Number) (path : String)
      → IsGood keys
      → Resolves (missing_some_with n keys path)
  unfolding missing_some_with Ensures
  missing_some_with-Ensures none keys path h = tt
  missing_some_with-Ensures (some n) keys path h = elim (Bool-cases (is_array keys.value)) [
    | inl listed ↦ rw listed (
        Ensures->>= EachResolved IsResolved (keys.parse_elements (at_index path 1)) _ (h.elements _)
          λ rs others. unfold IsResolved in others)
    | inr scalar ↦ rw scalar tt
  ]

  pub missing_some_of-Ensures :
      (args : Args) (path : String) → All IsGood args → Resolves (missing_some_of args path)
  unfolding missing_some_of Ensures
  missing_some_of-Ensures [] path h = tt
  missing_some_of-Ensures (a ∷ []) path h = tt
  missing_some_of-Ensures (n ∷ keys ∷ []) path h =
      missing_some_with-Ensures (as_u64 n.value) keys path h.1.0
  missing_some_of-Ensures (a ∷ b ∷ c ∷ rest) path h = tt

  op_of-Ensures : (path : String) (v : JsonValue) → Ensures Anything (op_of path v)
  unfolding op_of Ensures
  op_of-Ensures path null = tt
  op_of-Ensures path (bool b) = tt
  op_of-Ensures path (number n) = tt
  op_of-Ensures path (array vs) = tt
  op_of-Ensures path (object fs) = tt
  op_of-Ensures path (string symbol) = elim (Option-cases (op_of_symbol symbol)) [
    | inl unknown ↦ rw (op_of, unknown) tt
    | inr (op, known) ↦ rw (op_of, known) tt
  ]

  pub sem_ver_of-Ensures :
      (args : Args) (path : String) → All IsGood args → Resolves (sem_ver_of args path)
  unfolding sem_ver_of Ensures
  sem_ver_of-Ensures [] path h = tt
  sem_ver_of-Ensures (a ∷ []) path h = tt
  sem_ver_of-Ensures (a ∷ b ∷ []) path h = tt
  sem_ver_of-Ensures (value ∷ operator ∷ version ∷ []) path h =
      Ensures->>= Anything IsResolved (op_of path operator.value) _
        (op_of-Ensures path operator.value)
        λ op known.
          Ensures->>= IsResolved IsResolved (value.parse (at_index path 0)) _ (h.0.parsed _)
            λ r first.
              Ensures->>= IsResolved IsResolved (version.parse (at_index path 2)) _
                (h.1.1.0.parsed _)
                λ s second.
                  let both : IsResolved (Rule.sem_ver r op s) =
                    unfold IsResolved in (first, second) in
                  both
  sem_ver_of-Ensures (a ∷ b ∷ c ∷ d ∷ rest) path h = tt

  weighted-Ensures :
      (path variant : String) (o : Option ℕ) → Ensures Anything (weighted path variant o)
  unfolding weighted bad_bucket Ensures
  weighted-Ensures path variant none = tt
  weighted-Ensures path variant (some w) = elim (Bool-cases (ltb w (2 ^ 32))) [
    | inl fits ↦ rw fits tt
    | inr large ↦ rw large tt
  ]

  bucket-Ensures : (path : String) (v : JsonValue) → Ensures Anything (bucket path v)
  unfolding bucket bad_bucket Ensures
  bucket-Ensures path null = tt
  bucket-Ensures path (bool b) = tt
  bucket-Ensures path (number n) = tt
  bucket-Ensures path (string s) = tt
  bucket-Ensures path (object fs) = tt
  bucket-Ensures path (array Json.nil) = tt
  bucket-Ensures path (array (Json.cons null rest)) = tt
  bucket-Ensures path (array (Json.cons (bool b) rest)) = tt
  bucket-Ensures path (array (Json.cons (number n) rest)) = tt
  bucket-Ensures path (array (Json.cons (array vs) rest)) = tt
  bucket-Ensures path (array (Json.cons (object fs) rest)) = tt
  bucket-Ensures path (array (Json.cons (string s) Json.nil)) = tt
  bucket-Ensures path (array (Json.cons (string s) (Json.cons w Json.nil))) =
      weighted-Ensures path s (as_u64 w)
  bucket-Ensures path (array (Json.cons (string s) (Json.cons w (Json.cons v rest)))) = tt

  buckets_from-Ensures :
      (i : ℕ) (path : String) (args : Args) → Ensures Anything (buckets_from i path args)
  unfolding buckets_from Ensures
  buckets_from-Ensures i path [] = tt
  buckets_from-Ensures i path (a ∷ rest) =
      Ensures->>= Anything Anything (bucket (at_index path i) a.value) _ (bucket-Ensures _ a.value)
        λ b known.
          Ensures->>= Anything Anything (buckets_from (i + 1) path rest) _
            (buckets_from-Ensures (i + 1) path rest) λ bs more. tt

  -- Buckets without a bucketing expression, and with one.
  plain-Ensures :
      (args : Args) (path : String)
      → Resolves (buckets_from 0 path args >>= λ bs. ok (Rule.fractional bs))
  unfolding Ensures IsResolved
  plain-Ensures args path =
      Ensures->>= Anything IsResolved (buckets_from 0 path args) _
        (buckets_from-Ensures 0 path args) λ bs known. tt

  fractional_args-Ensures :
      (args : Args) (path : String) → All IsGood args → Resolves (fractional_args args path)
  unfolding fractional_args Ensures
  fractional_args-Ensures [] path h = tt
  fractional_args-Ensures (a ∷ []) path h = elim (Bool-cases (is_array a.value)) [
    | inl listed ↦ rw listed (plain-Ensures (a ∷ []) path)
    | inr expression ↦ rw expression (
        Ensures->>= IsResolved IsResolved (a.parse (at_index path 0)) _ (h.0.parsed _)
          λ r first. tt)
  ]
  fractional_args-Ensures (a ∷ b ∷ rest) path h = elim (Bool-cases (is_array a.value)) [
    | inl listed ↦ rw listed (plain-Ensures (a ∷ b ∷ rest) path)
    | inr expression ↦ rw expression (
        Ensures->>= IsResolved IsResolved (a.parse (at_index path 0)) _ (h.0.parsed _) λ r first.
          Ensures->>= Anything IsResolved (buckets_from 0 path (b ∷ rest)) _
            (buckets_from-Ensures 0 path (b ∷ rest))
            λ bs known.
              let resolved : IsResolved (Rule.fractional_by r bs) = unfold IsResolved in first in
              resolved)
  ]

  pub fractional_of-Ensures :
      (v : JsonValue) (args : Args) (path : String)
      → All IsGood args
      → Resolves (fractional_of v args path)
  unfolding fractional_of Ensures
  fractional_of-Ensures null args path h = tt
  fractional_of-Ensures (bool b) args path h = tt
  fractional_of-Ensures (number n) args path h = tt
  fractional_of-Ensures (string s) args path h = tt
  fractional_of-Ensures (object fs) args path h = tt
  fractional_of-Ensures (array vs) args path h = fractional_args-Ensures args path h
