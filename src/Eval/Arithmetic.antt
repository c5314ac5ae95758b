-- ===== src/Eval/Arithmetic.antt =====
-- The arithmetic and text operators of crates/flaps-eval/src/logic.rs.
use Prim.Native.String.{◌++◌}
use flaps.Prelude.{
  ◌-◌, String, Option, none, some, List, [], ◌∷◌, ok, ◌>>=◌, length, take, drop, if◌then◌else◌,
}
use flaps.Prelude.Int.{ℤ, pos, pos_part, ◌+ℤ◌, ltb_ℤ, wrap_i64}
use flaps.Prelude.Text
use flaps.Json.{null, string}
use flaps.Numbers.{Numbers}
use flaps.Eval.Coerce.{JsonValue, to_number, to_string, to_integer, parse_float, number_value}
use flaps.Eval.Errors.{Evaluated, Evaluator}

-- `i64` values: the smaller and the larger of two.
abbrev min_ℤ : ℤ → ℤ → ℤ
min_ℤ a b = if ltb_ℤ b a then b else a

abbrev max_ℤ : ℤ → ℤ → ℤ
max_ℤ a b = if ltb_ℤ a b then b else a

abbrev clamp : ℤ → ℤ → ℤ → ℤ
clamp lo hi x = if ltb_ℤ x lo then lo else if ltb_ℤ hi x then hi else x

-- `substr` without its coercions: the first position, and the end where there is a span. The sums are
-- `i64` sums, which wrap in a release build.
unfoldable pub begin_of : ℤ → ℤ → ℤ
begin_of len start =
    if ltb_ℤ start (pos 0) then max_ℤ (wrap_i64 (len +ℤ start)) (pos 0) else min_ℤ start len

unfoldable pub end_of : ℤ → ℤ → Option ℤ → ℤ
end_of len begin none = clamp begin len len
end_of len begin (some span) =
    clamp begin len
      (if ltb_ℤ span (pos 0) then wrap_i64 (len +ℤ span) else wrap_i64 (begin +ℤ span))

unfoldable pub substr : String → ℤ → Option ℤ → String
unfolding begin_of end_of
substr text start span =
    let cs = Text.chars text in
    let len = pos (length cs) in
    let begin = begin_of len start in
    let finish = end_of len begin span in
    Text.of_chars (take (pos_part finish - pos_part begin) (drop (pos_part begin) cs))

module _ ⦃num : Numbers⦄ where
  open num use {F64, of_nat}

  unfoldable pub add_from : F64 → List Evaluator → JsonValue → Evaluated JsonValue
  add_from sum [] d = ok (number_value sum)
  add_from sum (operand ∷ rest) d = do v ← operand d; add_from (num.add sum (parse_float v)) rest d

  unfoldable pub eval_add : List Evaluator → JsonValue → Evaluated JsonValue
  unfolding add_from
  eval_add = add_from (of_nat 0)

  unfoldable pub eval_sub : List Evaluator → JsonValue → Evaluated JsonValue
  eval_sub (operand ∷ []) d = do v ← operand d; ok (number_value (num.neg (to_number v)))
  eval_sub (left ∷ right ∷ []) d = do
    l ← left d
    r ← right d
    ok (number_value (num.sub (to_number l) (to_number r)))
  eval_sub operands d = ok null

  unfoldable pub mul_from : F64 → List Evaluator → JsonValue → Evaluated JsonValue
  mul_from product [] d = ok (number_value product)
  mul_from product (operand ∷ rest) d = do
    v ← operand d
    mul_from (num.mul product (parse_float v)) rest d

  unfoldable pub eval_mul : List Evaluator → JsonValue → Evaluated JsonValue
  unfolding mul_from
  eval_mul = mul_from (of_nat 1)

  extreme_value : Option F64 → JsonValue
  extreme_value none = null
  extreme_value (some x) = number_value x

  pick_with : (F64 → F64 → F64) → Option F64 → F64 → F64
  pick_with pick none x = x
  pick_with pick (some current) x = pick current x

  unfoldable pub extreme_from :
      (F64 → F64 → F64) → Option F64 → List Evaluator → JsonValue → Evaluated JsonValue
  unfolding extreme_value pick_with
  extreme_from pick extreme [] d = ok (extreme_value extreme)
  extreme_from pick extreme (operand ∷ rest) d = do
    v ← operand d
    let x = to_number v
    let others = extreme_from pick (some (pick_with pick extreme x)) rest d
    if num.is_nan x then ok null else others

  unfoldable pub eval_extreme : (F64 → F64 → F64) → List Evaluator → JsonValue → Evaluated JsonValue
  unfolding extreme_from
  eval_extreme pick = extreme_from pick none

  unfoldable pub cat_from : String → List Evaluator → JsonValue → Evaluated JsonValue
  cat_from text [] d = ok (string text)
  cat_from text (operand ∷ rest) d = do v ← operand d; cat_from (text ++ to_string v) rest d

  unfoldable pub eval_cat : List Evaluator → JsonValue → Evaluated JsonValue
  unfolding cat_from
  eval_cat = cat_from ""

  -- The operands behind the two indexes are not read.
  unfoldable pub span_of : List Evaluator → JsonValue → Evaluated (Option ℤ)
  span_of [] d = ok none
  span_of (operand ∷ rest) d = do v ← operand d; ok (some (to_integer v))

  unfoldable pub eval_substr : List Evaluator → JsonValue → Evaluated JsonValue
  unfolding substr span_of
  eval_substr [] d = ok null
  eval_substr (subject ∷ []) d = do s ← subject d; ok (string (substr (to_string s) (pos 0) none))
  eval_substr (subject ∷ start ∷ rest) d = do
    s ← subject d
    i ← start d
    span ← span_of rest d
    ok (string (substr (to_string s) (to_integer i) span))
