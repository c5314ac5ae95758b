-- ===== src/Domain/Rollout.antt =====
-- crates/flaps-domain/src/flag_env_config.rs: rollouts, serve targets and the configuration of a flag in an
-- environment.
use flaps.Prelude.{ℕ, ◌+◌, String, Bool, List, [], ◌∷◌, ok, err, ◌>>=◌, eqb, if◌then◌else◌}
use flaps.Domain.Errors.{Checked, invalid_rollout}

pub record WeightedVariant : Type 0 where
  pub variant : String
  pub weight : ℕ

unfoldable pub total : List WeightedVariant → ℕ
total [] = 0
total (w ∷ ws) = w.weight + total ws

-- A rollout is its weights.
pub data ServeTarget : Type 0 where
  fixed : String → ServeTarget
  rollout : List WeightedVariant → ServeTarget

unfoldable pub try_from : List WeightedVariant → Checked (List WeightedVariant)
unfolding total
try_from weights = if eqb (total weights) 0 then err invalid_rollout else ok weights

-- `ServeTarget::rollout`
unfoldable pub new_rollout : List WeightedVariant → Checked ServeTarget
unfolding try_from
new_rollout weights = do ws ← try_from weights; ok (rollout ws)

pub record TargetingRule : Type 0 where
  pub segments : List String
  pub serve : ServeTarget

pub record FlagEnvConfig : Type 0 where
  pub enabled : Bool
  pub rules : List TargetingRule
  pub default_rule : ServeTarget
