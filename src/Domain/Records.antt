-- ===== src/Domain/Records.antt =====
-- The aggregates of crates/flaps-domain/src: flag.rs, segment.rs, environment.rs, project.rs and federation.rs.
use flaps.Prelude.{String, Option}
use flaps.Numbers.{Numbers}
use flaps.Domain.Errors.{ValueType}
use flaps.Domain.Variant.{Variants}
use flaps.Domain.Segment.{SegmentMatch}
use flaps.Eval.Model.{Metadata}

pub data FlagType : Type 0 where
  release ops experiment permission : FlagType

pub data ManagedBy : Type 0 where
  local federated : ManagedBy

pub record Project : Type 0 where
  pub key : String
  pub name : String
  pub description : Option String
  pub external_ref : Option String
  pub managed_by : ManagedBy

module _ ⦃num : Numbers⦄ where
  pub record Flag : Type 0 where
    pub key : String
    pub name : String
    pub description : Option String
    pub flag_type : FlagType
    pub value_type : ValueType
    pub variants : Variants num.F64 num.Number
    pub metadata : Metadata

  pub record Segment : Type 0 where
    pub key : String
    pub name : String
    pub match_expr : SegmentMatch num.Number

  pub record Environment : Type 0 where
    pub key : String
    pub name : String
    pub external_ref : Option String
    pub managed_by : ManagedBy
    pub metadata : Metadata
