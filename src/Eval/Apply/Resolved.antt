-- ===== src/Eval/Apply/Resolved.antt =====
-- Rules with no `$ref` left in them, which the evaluator always reduces to a value.
mod Operators
mod Iteration
use flaps.Prelude.{some, none, ◌∷◌, []}
use flaps.Numbers.{Numbers}
use flaps.Versions.{Versions}
use flaps.Eval.Targeting.{Rule, Rules, nil, cons}
use flaps.Eval.Coerce.{JsonValue, truthy, loose_eq, strict_eq, lt, lte}
use flaps.Eval.Errors.{Evaluator}
use flaps.Eval.Apply.{apply, operands}
pub use Operators.{Returns, returns}
use Operators.{Total, AllTotal, none_left, next, operand_rules}
use Iteration.{arithmetic_values-Total, total_rules}

unfoldable mutual
  pub IsResolved : {F : Type 0} → Rule F → Type 0
  IsResolved (Rule.literal l) = Unit
  IsResolved (Rule.array rs) = AllResolved rs
  IsResolved (Rule.var path default) = Unit
  IsResolved (Rule.missing rs) = AllResolved rs
  IsResolved (Rule.missing_some n rs) = AllResolved rs
  IsResolved (Rule.if_chain rs) = AllResolved rs
  IsResolved (Rule.and rs) = AllResolved rs
  IsResolved (Rule.or rs) = AllResolved rs
  IsResolved (Rule.not r) = IsResolved r
  IsResolved (Rule.truthy r) = IsResolved r
  IsResolved (Rule.eq a b) = IsResolved a × IsResolved b
  IsResolved (Rule.strict_eq a b) = IsResolved a × IsResolved b
  IsResolved (Rule.neq a b) = IsResolved a × IsResolved b
  IsResolved (Rule.strict_neq a b) = IsResolved a × IsResolved b
  IsResolved (Rule.gt a b) = IsResolved a × IsResolved b
  IsResolved (Rule.gte a b) = IsResolved a × IsResolved b
  IsResolved (Rule.lt rs) = AllResolved rs
  IsResolved (Rule.lte rs) = AllResolved rs
  IsResolved (Rule.add rs) = AllResolved rs
  IsResolved (Rule.sub rs) = AllResolved rs
  IsResolved (Rule.mul rs) = AllResolved rs
  IsResolved (Rule.div a b) = IsResolved a × IsResolved b
  IsResolved (Rule.mod_rule a b) = IsResolved a × IsResolved b
  IsResolved (Rule.min rs) = AllResolved rs
  IsResolved (Rule.max rs) = AllResolved rs
  IsResolved (Rule.cat rs) = AllResolved rs
  IsResolved (Rule.substr rs) = AllResolved rs
  IsResolved (Rule.in_rule a b) = IsResolved a × IsResolved b
  IsResolved (Rule.merge rs) = AllResolved rs
  IsResolved (Rule.map a b) = IsResolved a × IsResolved b
  IsResolved (Rule.filter a b) = IsResolved a × IsResolved b
  IsResolved (Rule.reduce a b c) = IsResolved a × IsResolved b × IsResolved c
  IsResolved (Rule.all a b) = IsResolved a × IsResolved b
  IsResolved (Rule.none a b) = IsResolved a × IsResolved b
  IsResolved (Rule.some a b) = IsResolved a × IsResolved b
  IsResolved (Rule.starts_with a b) = IsResolved a × IsResolved b
  IsResolved (Rule.ends_with a b) = IsResolved a × IsResolved b
  IsResolved (Rule.sem_ver a op b) = IsResolved a × IsResolved b
  IsResolved (Rule.fractional bs) = Unit
  IsResolved (Rule.fractional_by a bs) = IsResolved a
  IsResolved (Rule.ref name) = ⊥

  pub AllResolved : {F : Type 0} → Rules F → Type 0
  AllResolved nil = Unit
  AllResolved (cons r rs) = IsResolved r × AllResolved rs

module _ ⦃num : Numbers⦄ ⦃ver : Versions⦄ where
  mutual
    unfolding IsResolved apply

    apply-Total : (r : Rule num.F64) → IsResolved r → Total (apply r)
    apply-Total (Rule.literal l) h = record { at = λ d. returns _ }
    apply-Total (Rule.array rs) h = search (operand_rules, total_rules, operands-AllTotal rs h)
    apply-Total (Rule.var path default) h = record { at = λ d. returns _ }
    apply-Total (Rule.missing rs) h = search (operand_rules, total_rules, operands-AllTotal rs h)
    apply-Total (Rule.missing_some n rs) h =
        search (operand_rules, total_rules, operands-AllTotal rs h)
    apply-Total (Rule.if_chain rs) h = search (operand_rules, total_rules, operands-AllTotal rs h)
    apply-Total (Rule.and rs) h = search (operand_rules, total_rules, operands-AllTotal rs h)
    apply-Total (Rule.or rs) h = search (operand_rules, total_rules, operands-AllTotal rs h)
    apply-Total (Rule.not r) h = search (total_rules, apply-Total r h)
    apply-Total (Rule.truthy r) h = search (total_rules, apply-Total r h)
    apply-Total (Rule.eq a b) h = search (total_rules, apply-Total a h.0, apply-Total b h.1)
    apply-Total (Rule.strict_eq a b) h = search (total_rules, apply-Total a h.0, apply-Total b h.1)
    apply-Total (Rule.neq a b) h = search (total_rules, apply-Total a h.0, apply-Total b h.1)
    apply-Total (Rule.strict_neq a b) h = search (total_rules, apply-Total a h.0, apply-Total b h.1)
    apply-Total (Rule.gt a b) h = search (total_rules, apply-Total a h.0, apply-Total b h.1)
    apply-Total (Rule.gte a b) h = search (total_rules, apply-Total a h.0, apply-Total b h.1)
    apply-Total (Rule.lt rs) h = search (operand_rules, total_rules, operands-AllTotal rs h)
    apply-Total (Rule.lte rs) h = search (operand_rules, total_rules, operands-AllTotal rs h)
    apply-Total (Rule.add rs) h = search (operand_rules, total_rules, operands-AllTotal rs h)
    apply-Total (Rule.sub rs) h = search (operand_rules, total_rules, operands-AllTotal rs h)
    apply-Total (Rule.mul rs) h = search (operand_rules, total_rules, operands-AllTotal rs h)
    apply-Total (Rule.div a b) h =
        arithmetic_values-Total num.div (apply-Total a h.0) (apply-Total b h.1)
    apply-Total (Rule.mod_rule a b) h =
        arithmetic_values-Total num.rem (apply-Total a h.0) (apply-Total b h.1)
    apply-Total (Rule.min rs) h = search (operand_rules, total_rules, operands-AllTotal rs h)
    apply-Total (Rule.max rs) h = search (operand_rules, total_rules, operands-AllTotal rs h)
    apply-Total (Rule.cat rs) h = search (operand_rules, total_rules, operands-AllTotal rs h)
    apply-Total (Rule.substr rs) h = search (operand_rules, total_rules, operands-AllTotal rs h)
    apply-Total (Rule.in_rule a b) h = search (total_rules, apply-Total a h.0, apply-Total b h.1)
    apply-Total (Rule.merge rs) h = search (operand_rules, total_rules, operands-AllTotal rs h)
    apply-Total (Rule.map a b) h = search (total_rules, apply-Total a h.0, apply-Total b h.1)
    apply-Total (Rule.filter a b) h = search (total_rules, apply-Total a h.0, apply-Total b h.1)
    apply-Total (Rule.reduce a b c) h =
        search (total_rules, apply-Total a h.0, apply-Total b h.1, apply-Total c h.2)
    apply-Total (Rule.all a b) h = search (total_rules, apply-Total a h.0, apply-Total b h.1)
    apply-Total (Rule.none a b) h = search (total_rules, apply-Total a h.0, apply-Total b h.1)
    apply-Total (Rule.some a b) h = search (total_rules, apply-Total a h.0, apply-Total b h.1)
    apply-Total (Rule.starts_with a b) h =
        search (total_rules, apply-Total a h.0, apply-Total b h.1)
    apply-Total (Rule.ends_with a b) h = search (total_rules, apply-Total a h.0, apply-Total b h.1)
    apply-Total (Rule.sem_ver a op b) h = search (total_rules, apply-Total a h.0, apply-Total b h.1)
    apply-Total (Rule.fractional bs) h = search total_rules
    apply-Total (Rule.fractional_by a bs) h = search (total_rules, apply-Total a h)
    apply-Total (Rule.ref name) h = absurd h

    operands-AllTotal : (rs : Rules num.F64) → AllResolved rs → AllTotal (operands rs)
    operands-AllTotal nil h = none_left
    operands-AllTotal (cons r rs) h = next (apply-Total r h.0) (operands-AllTotal rs h.1)

  -- A rule with no reference left reduces to a value, whatever the data: its operators never fail.
  pub apply-Returns : (r : Rule num.F64) (d : JsonValue) → IsResolved r → Returns (apply r d)
  apply-Returns r d h = (apply-Total r h).at d
