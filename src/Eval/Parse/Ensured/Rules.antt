-- ===== src/Eval/Parse/Ensured/Rules.antt =====
-- Rules: where every `$ref` stands for a rule with none left in it, so does every JSON that parses.
use flaps.Prelude.{String, All}
use flaps.Json.{Value, Items, Fields, null, bool, number, string, array, object, end, field}
use flaps.Json
use flaps.Numbers.{Numbers}
use flaps.Eval.Coerce.{JsonValue}
use flaps.Eval.Apply.Resolved.{IsResolved, AllResolved}
use flaps.Eval.Parse.Rule.{rules, rule, arguments, no_elements}
use flaps.Eval.Parse.Ensured.{Ensures, Ensures->>=, Resolves, EachResolved, IsGood, rules-Ensures}
use flaps.Eval.Parse.Ensured.Forms.{number_rule-Ensures}
use flaps.Eval.Parse.Ensured.Operators.{Reference, operation-Ensures}

module _ ⦃num : Numbers⦄ where
  -- An argument that is no array.
  scalar-IsGood :
      (reference : Reference) (v : JsonValue)
      → ((path : String) → Resolves (rule reference v path))
      → IsGood (record { value = v; parse = rule reference v; parse_elements = no_elements })
  unfolding no_elements Ensures AllResolved
  scalar-IsGood reference v h = record { parsed = h; elements = λ path. tt }

  module _ (reference : Reference) (h : (p name : String) → Resolves (reference p name)) where
    mutual
      unfolding rule arguments Ensures IsResolved

      pub rule-Ensures : (v : JsonValue) (path : String) → Resolves (rule reference v path)
      rule-Ensures null path = tt
      rule-Ensures (bool b) path = tt
      rule-Ensures (number n) path = number_rule-Ensures path (num.as_f64 n)
      rule-Ensures (string s) path = tt
      rule-Ensures (array vs) path =
          Ensures->>= EachResolved IsResolved (rules path (arguments reference vs)) _
            (rules-Ensures path (arguments reference vs) (arguments-IsGood vs)) λ rs others. others
      rule-Ensures (object end) path = tt
      rule-Ensures (object (field operator null end)) path =
          operation-Ensures reference operator null _ path h
            (scalar-IsGood reference null (rule-Ensures null), tt)
      rule-Ensures (object (field operator (bool b) end)) path =
          operation-Ensures reference operator (bool b) _ path h
            (scalar-IsGood reference (bool b) (rule-Ensures (bool b)), tt)
      rule-Ensures (object (field operator (number n) end)) path =
          operation-Ensures reference operator (number n) _ path h
            (scalar-IsGood reference (number n) (rule-Ensures (number n)), tt)
      rule-Ensures (object (field operator (string s) end)) path =
          operation-Ensures reference operator (string s) _ path h
            (scalar-IsGood reference (string s) (rule-Ensures (string s)), tt)
      rule-Ensures (object (field operator (object fs) end)) path =
          operation-Ensures reference operator (object fs) _ path h
            (scalar-IsGood reference (object fs) (rule-Ensures (object fs)), tt)
      rule-Ensures (object (field operator (array vs) end)) path =
          operation-Ensures reference operator (array vs) (arguments reference vs) path h
            (arguments-IsGood vs)
      rule-Ensures (object (field operator null (field next w rest))) path = tt
      rule-Ensures (object (field operator (bool b) (field next w rest))) path = tt
      rule-Ensures (object (field operator (number n) (field next w rest))) path = tt
      rule-Ensures (object (field operator (string s) (field next w rest))) path = tt
      rule-Ensures (object (field operator (object fs) (field next w rest))) path = tt
      rule-Ensures (object (field operator (array vs) (field next w rest))) path = tt

      arguments-IsGood : (vs : Items num.Number) → All IsGood (arguments reference vs)
      arguments-IsGood Json.nil = tt
      arguments-IsGood (Json.cons null rest) =
          (scalar-IsGood reference null (rule-Ensures null), arguments-IsGood rest)
      arguments-IsGood (Json.cons (bool b) rest) =
          (scalar-IsGood reference (bool b) (rule-Ensures (bool b)), arguments-IsGood rest)
      arguments-IsGood (Json.cons (number n) rest) =
          (scalar-IsGood reference (number n) (rule-Ensures (number n)), arguments-IsGood rest)
      arguments-IsGood (Json.cons (string s) rest) =
          (scalar-IsGood reference (string s) (rule-Ensures (string s)), arguments-IsGood rest)
      arguments-IsGood (Json.cons (object fs) rest) =
          (scalar-IsGood reference (object fs) (rule-Ensures (object fs)), arguments-IsGood rest)
      arguments-IsGood (Json.cons (array vs) rest) = (
        record {
          parsed = rule-Ensures (array vs);
          elements = λ path. rules-Ensures path (arguments reference vs) (arguments-IsGood vs);
        },
        arguments-IsGood rest,
      )
