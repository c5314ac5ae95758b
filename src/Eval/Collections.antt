-- ===== src/Eval/Collections.antt =====
-- The operators on arrays of crates/flaps-eval/src/logic.rs. The inner rule of an iteration runs with
-- an element for its data.
use flaps.Prelude.{Bool, true, false, ◌||◌, List, [], ◌∷◌, ◌++◌, ok, ◌>>=◌, traverse, if◌then◌else◌}
use flaps.Prelude.Text
use flaps.Json
use flaps.Json.{null, bool, string, array, object, end, field}
use flaps.Numbers.{Numbers}
use flaps.Eval.Coerce.{JsonValue, truthy, to_string, strict_eq}
use flaps.Eval.Errors.{Evaluated, Evaluator}

module _ ⦃num : Numbers⦄ where
  -- `iter().any`.
  unfoldable pub holds_member : JsonValue → List JsonValue → Bool
  holds_member needle [] = false
  holds_member needle (item ∷ rest) = strict_eq item needle || holds_member needle rest

  unfoldable pub found_in : JsonValue → JsonValue → Bool
  unfolding holds_member
  found_in needle (string text) = Text.contains text (to_string needle)
  found_in needle (array vs) = holds_member needle (Json.items vs)
  found_in needle haystack = false

  unfoldable pub eval_in : Evaluator → Evaluator → JsonValue → Evaluated JsonValue
  unfolding found_in
  eval_in needle haystack d = do n ← needle d; h ← haystack d; ok (bool (found_in n h))

  merged : JsonValue → List JsonValue
  merged (array vs) = Json.items vs
  merged v = v ∷ []

  unfoldable pub merge_from : List JsonValue → List Evaluator → JsonValue → Evaluated JsonValue
  unfolding merged
  merge_from acc [] d = ok (array (Json.of_items acc))
  merge_from acc (operand ∷ rest) d = do v ← operand d; merge_from (acc ++ merged v) rest d

  unfoldable pub eval_merge : List Evaluator → JsonValue → Evaluated JsonValue
  unfolding merge_from
  eval_merge = merge_from []

  unfoldable pub elements : JsonValue → List JsonValue
  elements (array vs) = Json.items vs
  elements v = []

  unfoldable pub iteration_items : Evaluator → JsonValue → Evaluated (List JsonValue)
  unfolding elements
  iteration_items source d = do v ← source d; ok (elements v)

  unfoldable pub eval_map : Evaluator → Evaluator → JsonValue → Evaluated JsonValue
  unfolding iteration_items
  eval_map source logic d = do
    vs ← iteration_items source d
    mapped ← traverse logic vs
    ok (array (Json.of_items mapped))

  unfoldable pub kept : Evaluator → List JsonValue → Evaluated (List JsonValue)
  kept logic [] = ok []
  kept logic (item ∷ rest) = do
    v ← logic item
    others ← kept logic rest
    ok (if truthy v then item ∷ others else others)

  unfoldable pub eval_filter : Evaluator → Evaluator → JsonValue → Evaluated JsonValue
  unfolding iteration_items kept
  eval_filter source logic d = do
    vs ← iteration_items source d
    rest ← kept logic vs
    ok (array (Json.of_items rest))

  -- `json!({ "current": item, "accumulator": accumulator })`, its keys in order.
  unfoldable pub reduce_scope : JsonValue → JsonValue → JsonValue
  reduce_scope item acc = object (field "accumulator" acc (field "current" item end))

  unfoldable pub reduce_from : Evaluator → JsonValue → List JsonValue → Evaluated JsonValue
  unfolding reduce_scope
  reduce_from logic acc [] = ok acc
  reduce_from logic acc (item ∷ rest) = do
    next ← logic (reduce_scope item acc)
    reduce_from logic next rest

  unfoldable pub eval_reduce : Evaluator → Evaluator → Evaluator → JsonValue → Evaluated JsonValue
  unfolding iteration_items reduce_from
  eval_reduce source logic initial d = do
    acc ← initial d
    vs ← iteration_items source d
    reduce_from logic acc vs

  unfoldable pub all_hold : Evaluator → List JsonValue → Evaluated JsonValue
  all_hold test [] = ok (bool true)
  all_hold test (item ∷ rest) = do
    v ← test item
    let others = all_hold test rest
    if truthy v then others else ok (bool false)

  unfoldable pub nonempty_all : Evaluator → List JsonValue → Evaluated JsonValue
  unfolding all_hold
  nonempty_all test [] = ok (bool false)
  nonempty_all test (item ∷ rest) = all_hold test (item ∷ rest)

  unfoldable pub eval_all : Evaluator → Evaluator → JsonValue → Evaluated JsonValue
  unfolding iteration_items nonempty_all
  eval_all source test d = do vs ← iteration_items source d; nonempty_all test vs

  unfoldable pub some_holds : Evaluator → List JsonValue → Evaluated JsonValue
  some_holds test [] = ok (bool false)
  some_holds test (item ∷ rest) = do
    v ← test item
    let others = some_holds test rest
    if truthy v then ok (bool true) else others

  unfoldable pub eval_some : Evaluator → Evaluator → JsonValue → Evaluated JsonValue
  unfolding iteration_items some_holds
  eval_some source test d = do vs ← iteration_items source d; some_holds test vs
