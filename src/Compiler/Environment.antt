-- ===== src/Compiler/Environment.antt =====
-- crates/flaps-compiler/src/lib.rs: the ruleset of an environment, and the environments that use a segment.
pub mod Uses
use flaps.Prelude.{
  ℕ, ◌+◌, ◌%◌, ◌^◌, String, Bool, false, ◌||◌, Option, none, some, List, [], ◌∷◌, Result, ok, err,
  ◌>>=◌, ◌==◌, if◌then◌else◌,
}
use flaps.Prelude.Map
use flaps.Prelude.Map.{BTreeMap}
use flaps.Numbers.{Numbers}
use flaps.Eval.Coerce.{JsonValue}
use flaps.Eval.Model.{FlagOf, FlagSetOf, Metadata}
use flaps.Eval.Parse.Errors.{ParseError}
use flaps.Eval.Parse.Document.{from_json}
use flaps.Eval.Serialize.{to_json}
use flaps.Domain.Rollout.{TargetingRule, FlagEnvConfig}
use flaps.Compiler.Errors.{Compiled, evaluator_rejected}
use flaps.Compiler.Flag.{DomainVariants, Segments, compile_metadata, compile_flag}

-- What the compiler uses of other crates: `serde_json`'s text and the hex form of SHA-256.
pub record TextFormat ⦃num : Numbers⦄ : Type 0 where
  pub print : JsonValue → String
  pub parse : String → Option JsonValue
  pub content_hash : String → String

-- What is compiled of a flag, with its configuration.
pub record FlagConfig ⦃num : Numbers⦄ : Type 0 where
  pub key : String
  pub variants : DomainVariants
  pub metadata : Metadata
  pub config : FlagEnvConfig

pub record CompiledRuleset : Type 0 where
  pub environment : String
  pub document : String
  pub content_hash : String
  pub version : ℕ

unfoldable pub next_version : Option CompiledRuleset → String → ℕ
next_version none hash = 1
next_version (some prev) hash =
    if prev.content_hash == hash then prev.version else (prev.version + 1) % 2 ^ 64

module _ ⦃num : Numbers⦄ where
  unfoldable pub compile_flags :
      List FlagConfig → Segments → BTreeMap FlagOf → Compiled (BTreeMap FlagOf)
  compile_flags [] segments m = ok m
  compile_flags (c ∷ cs) segments m = do
    compiled ← compile_flag c.key c.variants c.config segments c.metadata
    compile_flags cs segments (Map.insert c.key compiled m)

  unfoldable pub rejected : String → Result ParseError FlagSetOf → Compiled FlagSetOf
  rejected environment (ok s) = ok s
  rejected environment (err e) = err (evaluator_rejected environment e)

  unfoldable pub compile_environment :
      TextFormat
      → String
      → List FlagConfig
      → Segments
      → Metadata
      → Option CompiledRuleset
      → Compiled CompiledRuleset
  unfolding compile_flags rejected next_version
  compile_environment format environment flags segments metadata previous = do
    compiled ← compile_flags flags segments []
    let document =
        to_json format.print (record { flags = compiled; metadata = compile_metadata metadata })
    let hash = format.content_hash document
    checked ← rejected environment (from_json format.parse document)
    ok (record {
      environment = environment;
      document = document;
      content_hash = hash;
      version = next_version previous hash;
    })

  unfoldable pub mentions_key : String → List String → Bool
  mentions_key segment [] = false
  mentions_key segment (key ∷ keys) = key == segment || mentions_key segment keys

  unfoldable pub mentions_rule : String → List TargetingRule → Bool
  unfolding mentions_key
  mentions_rule segment [] = false
  mentions_rule segment (r ∷ rs) = mentions_key segment r.segments || mentions_rule segment rs

  -- The loop that stops at the first flag that mentions the segment.
  unfoldable pub mentions : String → List FlagConfig → Bool
  unfolding mentions_rule
  mentions segment [] = false
  mentions segment (c ∷ cs) = mentions_rule segment c.config.rules || mentions segment cs

  -- The source returns a set; the environments are the keys of a map, so none is there twice.
  unfoldable pub environments_referencing_segment :
      String → BTreeMap (List FlagConfig) → List String
  unfolding mentions
  environments_referencing_segment segment [] = []
  environments_referencing_segment segment ((environment, flags) ∷ rest) =
      let others = environments_referencing_segment segment rest in
      if mentions segment flags then environment ∷ others else others
