-- ===== src/Eval/Model.antt =====
-- The flag set of crates/flaps-eval/src/model.rs.
use flaps.Prelude.{String, Bool, Option}
use flaps.Prelude.Map.{BTreeMap}
use flaps.Json.{Fields}
use flaps.Numbers.{Numbers}
use flaps.Eval.Targeting.{Rule}

pub data State : Type 0 where
  enabled disabled : State

pub data MetadataValue (F : Type 0) : Type 0 where
  bool : Bool → MetadataValue F
  string : String → MetadataValue F
  number : F → MetadataValue F

abbrev pub Metadata : ⦃num : Numbers⦄ → Type 0
Metadata ⦃num⦄ = BTreeMap (MetadataValue num.F64)

pub data Variants (F N : Type 0) : Type 0 where
  boolean : BTreeMap Bool → Variants F N
  string : BTreeMap String → Variants F N
  number : BTreeMap F → Variants F N
  object : BTreeMap (Fields N) → Variants F N

pub record Flag (F N : Type 0) : Type 0 where
  pub state : State
  pub variants : Variants F N
  pub default_variant : Option String
  pub targeting : Option (Rule F)
  pub metadata : BTreeMap (MetadataValue F)

pub record FlagSet (F N : Type 0) : Type 0 where
  pub flags : BTreeMap (Flag F N)
  pub metadata : BTreeMap (MetadataValue F)

-- The flags and flag sets over the numbers at hand.
abbrev pub FlagOf : ⦃num : Numbers⦄ → Type 0
FlagOf ⦃num⦄ = Flag num.F64 num.Number

abbrev pub FlagSetOf : ⦃num : Numbers⦄ → Type 0
FlagSetOf ⦃num⦄ = FlagSet num.F64 num.Number

abbrev pub VariantsOf : ⦃num : Numbers⦄ → Type 0
VariantsOf ⦃num⦄ = Variants num.F64 num.Number
