-- ===== src/Domain/Errors.antt =====
-- crates/flaps-domain/src/error.rs, and `ValueType` of crates/flaps-domain/src/variant.rs.
use flaps.Prelude.{String, Result}

pub data ValueType : Type 0 where
  boolean string number object : ValueType

pub data DomainError : Type 0 where
  invalid_key : String → DomainError
  variant_type_mismatch : String → ValueType → DomainError
  empty_variants invalid_rollout : DomainError

abbrev pub Checked {ℓ} : Type ℓ → Type ℓ
Checked A = Result DomainError A
