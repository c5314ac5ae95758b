-- ===== src/Versions.antt =====
-- What the evaluator uses of the crate `semver`: its versions, their parser and their order.
use flaps.Prelude.{ℕ, String, Bool, Option}

pub record Versions : Type 1 where
  pub Version : Type 0
  -- `Version::parse`, with its error dropped
  pub parse : String → Option Version
  pub major : Version → ℕ
  pub minor : Version → ℕ
  pub eq : Version → Version → Bool
  pub lt : Version → Version → Bool
