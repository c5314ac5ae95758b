-- ===== src/Client/Provider/Errors.antt =====
-- `EvaluationErrorCode` of the crate `open_feature`, as crates/flaps-client/src uses it.
use flaps.Prelude.{String}

pub data EvaluationErrorCode : Type 0 where
  provider_not_ready flag_not_found type_mismatch invalid_context : EvaluationErrorCode
  general : String → EvaluationErrorCode
