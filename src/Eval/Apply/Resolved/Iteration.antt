-- ===== src/Eval/Apply/Resolved/Iteration.antt =====
-- The operators on arrays, the custom operators and the rollouts return a value where their operands do.
use flaps.Prelude.{Bool, none, some, List, [], ◌∷◌, traverse}
use flaps.Numbers.{Numbers}
use flaps.Versions.{Versions}
use flaps.Eval.Targeting.{Bucket, SemVerOp}
use flaps.Eval.Coerce.{JsonValue, truthy}
use flaps.Eval.Errors.{Evaluator}
use flaps.Eval.Collections.{
  eval_in, eval_merge, eval_map, eval_filter, eval_reduce, eval_all, eval_some, merge_from,
  iteration_items, kept, reduce_from, all_hold, nonempty_all, some_holds,
}
use flaps.Eval.Custom.{Affix, eval_string_comparison, eval_sem_ver}
use flaps.Eval.Fractional.{eval_fractional, bucketing_value}
use flaps.Eval.Apply.{compare_values, negate, arithmetic_values, none_of}
use flaps.Eval.Apply.Resolved.Operators.{
  Returns, returns, Returns-bind, Returns-if, Total, AllTotal, none_left, next,
}

module _ ⦃num : Numbers⦄ where
  pub compare_values-Total :
      {e f : Evaluator} (test : JsonValue → JsonValue → Bool)
      → Total e
      → Total f
      → Total (compare_values test e f)
  unfolding compare_values
  compare_values-Total test h k = record {
    at = λ d. Returns-bind (h.at d) λ v. Returns-bind (k.at d) λ w. returns _;
  }

  pub arithmetic_values-Total :
      {e f : Evaluator} (op : num.F64 → num.F64 → num.F64)
      → Total e
      → Total f
      → Total (arithmetic_values op e f)
  unfolding arithmetic_values
  arithmetic_values-Total op h k = record {
    at = λ d. Returns-bind (h.at d) λ v. Returns-bind (k.at d) λ w. returns _;
  }

  pub negate-Total : {e : Evaluator} (test : JsonValue → Bool) → Total e → Total (negate test e)
  unfolding negate
  negate-Total test h = record { at = λ d. Returns-bind (h.at d) λ v. returns _ }

  pub eval_in-Total : {e f : Evaluator} → Total e → Total f → Total (eval_in e f)
  unfolding eval_in
  eval_in-Total h k = record {
    at = λ d. Returns-bind (h.at d) λ v. Returns-bind (k.at d) λ w. returns _;
  }

  merge_from-Returns :
      {es : List Evaluator} (acc : List JsonValue) (d : JsonValue)
      → AllTotal es
      → Returns (merge_from acc es d)
  unfolding merge_from
  merge_from-Returns acc d none_left = returns _
  merge_from-Returns acc d (next h hs) = Returns-bind (h.at d) λ v. merge_from-Returns _ d hs

  pub eval_merge-Total : {es : List Evaluator} → AllTotal es → Total (eval_merge es)
  unfolding eval_merge
  eval_merge-Total hs = record { at = λ d. merge_from-Returns _ d hs }

  iteration_items-Returns :
      {e : Evaluator} (d : JsonValue) → Total e → Returns (iteration_items e d)
  unfolding iteration_items
  iteration_items-Returns d h = Returns-bind (h.at d) λ v. returns _

  traverse-Returns : {e : Evaluator} (vs : List JsonValue) → Total e → Returns (traverse e vs)
  traverse-Returns [] h = returns _
  traverse-Returns (v ∷ vs) h =
      Returns-bind (h.at v) λ w. Returns-bind (traverse-Returns vs h) λ ws. returns _

  pub eval_map-Total : {e f : Evaluator} → Total e → Total f → Total (eval_map e f)
  unfolding eval_map
  eval_map-Total h k = record {
    at = λ d.
        Returns-bind (iteration_items-Returns d h)
          λ vs. Returns-bind (traverse-Returns vs k) λ ws. returns _;
  }

  kept-Returns : {e : Evaluator} (vs : List JsonValue) → Total e → Returns (kept e vs)
  unfolding kept
  kept-Returns [] h = returns _
  kept-Returns (v ∷ vs) h =
      Returns-bind (h.at v) λ w. Returns-bind (kept-Returns vs h) λ ws. returns _

  pub eval_filter-Total : {e f : Evaluator} → Total e → Total f → Total (eval_filter e f)
  unfolding eval_filter
  eval_filter-Total h k = record {
    at = λ d.
        Returns-bind (iteration_items-Returns d h)
          λ vs. Returns-bind (kept-Returns vs k) λ ws. returns _;
  }

  reduce_from-Returns :
      {e : Evaluator} (acc : JsonValue) (vs : List JsonValue)
      → Total e
      → Returns (reduce_from e acc vs)
  unfolding reduce_from
  reduce_from-Returns acc [] h = returns _
  reduce_from-Returns acc (v ∷ vs) h = Returns-bind (h.at _) λ w. reduce_from-Returns w vs h

  pub eval_reduce-Total :
      {e f g : Evaluator} → Total e → Total f → Total g → Total (eval_reduce e f g)
  unfolding eval_reduce
  eval_reduce-Total h k l = record {
    at = λ d.
        Returns-bind (l.at d)
          λ acc. Returns-bind (iteration_items-Returns d h) λ vs. reduce_from-Returns acc vs k;
  }

  all_hold-Returns : {e : Evaluator} (vs : List JsonValue) → Total e → Returns (all_hold e vs)
  unfolding all_hold
  all_hold-Returns [] h = returns _
  all_hold-Returns (v ∷ vs) h =
      Returns-bind (h.at v) λ w. Returns-if (truthy w) (all_hold-Returns vs h) (returns _)

  nonempty_all-Returns :
      {e : Evaluator} (vs : List JsonValue) → Total e → Returns (nonempty_all e vs)
  unfolding nonempty_all
  nonempty_all-Returns [] h = returns _
  nonempty_all-Returns (v ∷ vs) h = all_hold-Returns (v ∷ vs) h

  pub eval_all-Total : {e f : Evaluator} → Total e → Total f → Total (eval_all e f)
  unfolding eval_all
  eval_all-Total h k = record {
    at = λ d. Returns-bind (iteration_items-Returns d h) λ vs. nonempty_all-Returns vs k;
  }

  some_holds-Returns : {e : Evaluator} (vs : List JsonValue) → Total e → Returns (some_holds e vs)
  unfolding some_holds
  some_holds-Returns [] h = returns _
  some_holds-Returns (v ∷ vs) h =
      Returns-bind (h.at v) λ w. Returns-if (truthy w) (returns _) (some_holds-Returns vs h)

  pub eval_some-Total : {e f : Evaluator} → Total e → Total f → Total (eval_some e f)
  unfolding eval_some
  eval_some-Total h k = record {
    at = λ d. Returns-bind (iteration_items-Returns d h) λ vs. some_holds-Returns vs k;
  }

  pub none_of-Total : {e f : Evaluator} → Total e → Total f → Total (none_of e f)
  unfolding none_of
  none_of-Total h k = record { at = λ d. Returns-bind ((eval_some-Total h k).at d) λ v. returns _ }

  pub eval_string_comparison-Total :
      {e f : Evaluator} (affix : Affix)
      → Total e
      → Total f
      → Total (eval_string_comparison affix e f)
  unfolding eval_string_comparison
  eval_string_comparison-Total affix h k = record {
    at = λ d. Returns-bind (h.at d) λ v. Returns-bind (k.at d) λ w. returns _;
  }

  pub eval_fractional-Total : (bs : List Bucket) → Total (eval_fractional none bs)
  unfolding eval_fractional bucketing_value
  eval_fractional-Total bs = record { at = λ d. Returns-if _ (returns _) (returns _) }

  pub eval_fractional_by-Total :
      {e : Evaluator} (bs : List Bucket) → Total e → Total (eval_fractional (some e) bs)
  unfolding eval_fractional bucketing_value
  eval_fractional_by-Total bs h = record {
    at = λ d.
        Returns-if _ (returns _)
          (Returns-bind (Returns-bind (h.at d) λ v. returns _) λ value. returns _);
  }

module _ ⦃num : Numbers⦄ ⦃ver : Versions⦄ where
  pub eval_sem_ver-Total :
      {e f : Evaluator} (op : SemVerOp) → Total e → Total f → Total (eval_sem_ver e op f)
  unfolding eval_sem_ver
  eval_sem_ver-Total op h k = record {
    at = λ d. Returns-bind (h.at d) λ v. Returns-bind (k.at d) λ w. returns _;
  }

pub ruleset total_rules = (
  compare_values-Total, arithmetic_values-Total, negate-Total, eval_in-Total, eval_merge-Total,
  eval_map-Total, eval_filter-Total, eval_reduce-Total, eval_all-Total, eval_some-Total,
  none_of-Total, eval_string_comparison-Total, eval_fractional-Total, eval_fractional_by-Total,
  eval_sem_ver-Total,
)
