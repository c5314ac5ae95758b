-- ===== src/Eval/Apply/Resolved/Operators.antt =====
-- Each operator of the evaluator returns a value where its operands do.
use flaps.Prelude.{
  ℕ, String, Bool, true, false, not, Option, none, List, [], ◌∷◌, Result, ok, ◌>>=◌, if◌then◌else◌,
}
use flaps.Numbers.{Numbers}
use flaps.Eval.Coerce.{JsonValue, truthy}
use flaps.Eval.Errors.{Evaluator, apply_all}
use flaps.Eval.Logic.{
  eval_missing, eval_missing_some, eval_if, eval_and, eval_or, eval_chain, and_from, or_from,
  chain_from,
}
use flaps.Eval.Arithmetic.{
  eval_add, eval_sub, eval_mul, eval_extreme, eval_cat, eval_substr, add_from, mul_from,
  extreme_from, cat_from, span_of,
}
use flaps.Eval.Apply.{eval_array, eval_missing_names}

pub data Returns {ℓ κ} {E : Type κ} {A : Type ℓ} : Result E A → Type (ℓ ⊔ κ) where
  returns : (a : A) → Returns (ok a)

pub Returns-bind {ℓ κ μ} :
    {E : Type κ} {A : Type ℓ} {B : Type μ} {m : Result E A} {f : A → Result E B}
    → Returns m
    → ((a : A) → Returns (f a))
    → Returns (m >>= f)
Returns-bind (returns a) k = k a

pub Returns-if {ℓ κ} :
    {E : Type κ} {A : Type ℓ} (b : Bool) {m n : Result E A}
    → Returns m
    → Returns n
    → Returns (if b then m else n)
Returns-if true h k = h
Returns-if false h k = k

pub ruleset returns_rules = (returns, Returns-bind, Returns-if)

module _ ⦃num : Numbers⦄ where
  pub record Total (e : Evaluator) : Type 0 where
    pub at : (d : JsonValue) → Returns (e d)

  pub data AllTotal : List Evaluator → Type 0 where
    none_left : AllTotal []
    next : {e : Evaluator} {es : List Evaluator} → Total e → AllTotal es → AllTotal (e ∷ es)

  apply_all-Returns : {es : List Evaluator} (d : JsonValue) → AllTotal es → Returns (apply_all es d)
  unfolding apply_all
  apply_all-Returns d none_left = returns []
  apply_all-Returns d (next h hs) =
      Returns-bind (h.at d) λ v. Returns-bind (apply_all-Returns d hs) λ vs. returns (v ∷ vs)

  pub eval_missing_some-Total :
      {es : List Evaluator} (n : ℕ) → AllTotal es → Total (eval_missing_some n es)
  unfolding eval_missing_some
  eval_missing_some-Total n hs = record {
    at = λ d.
        Returns-bind (Returns-bind (apply_all-Returns d hs) λ vs. returns _)
          λ found. Returns-if _ (returns _) (returns _);
  }

  pub eval_array-Total : {es : List Evaluator} → AllTotal es → Total (eval_array es)
  unfolding eval_array
  eval_array-Total hs = record { at = λ d. Returns-bind (apply_all-Returns d hs) λ vs. returns _ }

  pub eval_missing_names-Total : {es : List Evaluator} → AllTotal es → Total (eval_missing_names es)
  unfolding eval_missing_names eval_missing
  eval_missing_names-Total hs = record {
    at = λ d.
        Returns-bind (Returns-bind (apply_all-Returns d hs) λ vs. returns _) λ found. returns _;
  }

  eval_if-Returns : {es : List Evaluator} (d : JsonValue) → AllTotal es → Returns (eval_if es d)
  unfolding eval_if
  eval_if-Returns d none_left = returns _
  eval_if-Returns d (next h none_left) = h.at d
  eval_if-Returns d (next h (next k hs)) =
      Returns-bind (h.at d) λ c. Returns-if (truthy c) (k.at d) (eval_if-Returns d hs)

  pub eval_if-Total : {es : List Evaluator} → AllTotal es → Total (eval_if es)
  eval_if-Total hs = record { at = λ d. eval_if-Returns d hs }

  and_from-Returns :
      {es : List Evaluator} (last d : JsonValue) → AllTotal es → Returns (and_from last es d)
  unfolding and_from
  and_from-Returns last d none_left = returns _
  and_from-Returns last d (next h hs) =
      Returns-bind (h.at d) λ v. Returns-if (not (truthy v)) (returns _) (and_from-Returns v d hs)

  pub eval_and-Total : {es : List Evaluator} → AllTotal es → Total (eval_and es)
  unfolding eval_and
  eval_and-Total hs = record { at = λ d. and_from-Returns _ d hs }

  or_from-Returns :
      {es : List Evaluator} (last d : JsonValue) → AllTotal es → Returns (or_from last es d)
  unfolding or_from
  or_from-Returns last d none_left = returns _
  or_from-Returns last d (next h hs) =
      Returns-bind (h.at d) λ v. Returns-if (truthy v) (returns _) (or_from-Returns v d hs)

  pub eval_or-Total : {es : List Evaluator} → AllTotal es → Total (eval_or es)
  unfolding eval_or
  eval_or-Total hs = record { at = λ d. or_from-Returns _ d hs }

  chain_from-Returns :
      {es : List Evaluator} (ordered : JsonValue → JsonValue → Bool) (previous d : JsonValue)
      → AllTotal es
      → Returns (chain_from ordered previous es d)
  unfolding chain_from
  chain_from-Returns ordered previous d none_left = returns _
  chain_from-Returns ordered previous d (next h hs) =
      Returns-bind (h.at d)
        λ v. Returns-if (not (ordered previous v)) (returns _) (chain_from-Returns ordered v d hs)

  pub eval_chain-Total :
      {es : List Evaluator} (ordered : JsonValue → JsonValue → Bool)
      → AllTotal es
      → Total (eval_chain ordered es)
  unfolding eval_chain
  eval_chain-Total ordered none_left = record { at = λ d. returns _ }
  eval_chain-Total ordered (next h hs) = record {
    at = λ d. Returns-bind (h.at d) λ v. chain_from-Returns ordered v d hs;
  }

  add_from-Returns :
      {es : List Evaluator} (sum : num.F64) (d : JsonValue)
      → AllTotal es
      → Returns (add_from sum es d)
  unfolding add_from
  add_from-Returns sum d none_left = returns _
  add_from-Returns sum d (next h hs) = Returns-bind (h.at d) λ v. add_from-Returns _ d hs

  pub eval_add-Total : {es : List Evaluator} → AllTotal es → Total (eval_add es)
  unfolding eval_add
  eval_add-Total hs = record { at = λ d. add_from-Returns _ d hs }

  mul_from-Returns :
      {es : List Evaluator} (product : num.F64) (d : JsonValue)
      → AllTotal es
      → Returns (mul_from product es d)
  unfolding mul_from
  mul_from-Returns product d none_left = returns _
  mul_from-Returns product d (next h hs) = Returns-bind (h.at d) λ v. mul_from-Returns _ d hs

  pub eval_mul-Total : {es : List Evaluator} → AllTotal es → Total (eval_mul es)
  unfolding eval_mul
  eval_mul-Total hs = record { at = λ d. mul_from-Returns _ d hs }

  pub eval_sub-Total : {es : List Evaluator} → AllTotal es → Total (eval_sub es)
  unfolding eval_sub
  eval_sub-Total none_left = record { at = λ d. returns _ }
  eval_sub-Total (next h none_left) = record { at = λ d. Returns-bind (h.at d) λ v. returns _ }
  eval_sub-Total (next h (next k none_left)) = record {
    at = λ d. Returns-bind (h.at d) λ v. Returns-bind (k.at d) λ w. returns _;
  }
  eval_sub-Total (next h (next k (next l hs))) = record { at = λ d. returns _ }

  extreme_from-Returns :
      {es : List Evaluator} (pick : num.F64 → num.F64 → num.F64) (extreme : Option num.F64)
      (d : JsonValue)
      → AllTotal es
      → Returns (extreme_from pick extreme es d)
  unfolding extreme_from
  extreme_from-Returns pick extreme d none_left = returns _
  extreme_from-Returns pick extreme d (next h hs) =
      Returns-bind (h.at d) λ v. Returns-if _ (returns _) (extreme_from-Returns pick _ d hs)

  pub eval_extreme-Total :
      {es : List Evaluator} (pick : num.F64 → num.F64 → num.F64)
      → AllTotal es
      → Total (eval_extreme pick es)
  unfolding eval_extreme
  eval_extreme-Total pick hs = record { at = λ d. extreme_from-Returns pick none d hs }

  cat_from-Returns :
      {es : List Evaluator} (text : String) (d : JsonValue)
      → AllTotal es
      → Returns (cat_from text es d)
  unfolding cat_from
  cat_from-Returns text d none_left = returns _
  cat_from-Returns text d (next h hs) = Returns-bind (h.at d) λ v. cat_from-Returns _ d hs

  pub eval_cat-Total : {es : List Evaluator} → AllTotal es → Total (eval_cat es)
  unfolding eval_cat
  eval_cat-Total hs = record { at = λ d. cat_from-Returns _ d hs }

  span_of-Returns : {es : List Evaluator} (d : JsonValue) → AllTotal es → Returns (span_of es d)
  unfolding span_of
  span_of-Returns d none_left = returns _
  span_of-Returns d (next h hs) = Returns-bind (h.at d) λ v. returns _

  pub eval_substr-Total : {es : List Evaluator} → AllTotal es → Total (eval_substr es)
  unfolding eval_substr
  eval_substr-Total none_left = record { at = λ d. returns _ }
  eval_substr-Total (next h none_left) = record { at = λ d. Returns-bind (h.at d) λ v. returns _ }
  eval_substr-Total (next h (next k hs)) = record {
    at = λ d.
        Returns-bind (h.at d)
          λ s. Returns-bind (k.at d) λ i. Returns-bind (span_of-Returns d hs) λ n. returns _;
  }

pub ruleset operand_rules = (
  eval_array-Total, eval_missing_names-Total, eval_missing_some-Total, eval_if-Total,
  eval_and-Total, eval_or-Total, eval_chain-Total, eval_add-Total, eval_sub-Total, eval_mul-Total,
  eval_extreme-Total, eval_cat-Total, eval_substr-Total,
)
