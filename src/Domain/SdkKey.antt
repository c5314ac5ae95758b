-- ===== src/Domain/SdkKey.antt =====
-- `SdkKeyKind` of crates/flaps-domain/src/sdk_key.rs, and the stored forms of a key of crates/flaps-store/src/sdk_key.rs.
use flaps.Prelude.{String, Option}

pub data SdkKeyKind : Type 0 where
  server client : SdkKeyKind

pub record SdkKeyScope : Type 0 where
  pub project_key : String
  pub environment_key : String

pub record SdkKeyRecord : Type 0 where
  pub prefix : String
  pub kind : SdkKeyKind
  pub scope : SdkKeyScope
  pub created_at : String
  pub revoked_at : Option String
