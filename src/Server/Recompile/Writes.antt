-- ===== src/Server/Recompile/Writes.antt =====
-- What a write to the store does to what recompilation reads: rows with unique keys, and the cascades of
-- crates/flaps-store/migrations, in terms of rows alone.
use flaps.Prelude.{
  ◌≡◌, String, false, ◌&&◌, Option, none, some, List, [], ◌∷◌, ◌++◌, ok, err, ◌==◌, if◌then◌else◌,
  All,
}
use flaps.Numbers.{Numbers}
use flaps.Domain.Rollout.{FlagEnvConfig}
use flaps.Domain.Records.{Flag, Segment, Environment}
use flaps.Server.ApiErrors.{StoreError}
use flaps.Server.Recompile.{
  StoreResult, Change, upsert_flag, delete_flag, upsert_segment, delete_segment,
  upsert_flag_env_config, delete_flag_env_config, upsert_environment, delete_environment,
  delete_project, Reads,
}

module _ {A : Type 0} (key : A → String) where
  -- Rows of other keys.
  abbrev pub Apart : String → List A → Type 0
  Apart k rows = All (λ a. (key a == k) ≡ false) rows

  -- A row is replaced where it stands, or it is new and comes last.
  pub data Upserted (new : A) (before after : List A) : Type 0 where
    replaced :
        (first rest : List A) (old : A)
        → before ≡ first ++ (old ∷ rest)
        → key old ≡ key new
        → Apart (key new) first
        → after ≡ first ++ (new ∷ rest)
        → Upserted new before after
    added : Apart (key new) before → after ≡ before ++ (new ∷ []) → Upserted new before after

  -- The row of a key is gone, or there was none.
  pub data Deleted (k : String) (before after : List A) : Type 0 where
    removed :
        (first rest : List A) (old : A)
        → before ≡ first ++ (old ∷ rest)
        → key old ≡ k
        → Apart k first
        → Apart k rest
        → after ≡ first ++ rest
        → Deleted k before after
    absent : Apart k before → after ≡ before → Deleted k before after

-- Two reads of a list, which fail alike or give related lists.
pub data Listed {A : Type 0} (R : List A → List A → Type 0)
    : StoreResult (List A) → StoreResult (List A) → Type 0 where
  listed : {before after : List A} → R before after → Listed R (ok before) (ok after)
  failed : {e : StoreError} → Listed R (err e) (err e)

-- A read that finds no row any more.
abbrev pub gone : {A : Type 0} → StoreResult (Option A) → StoreResult (Option A)
gone (ok found) = ok none
gone (err e) = err e

module _ ⦃num : Numbers⦄ where
  abbrev pub WrittenFlags : Change → List Flag → List Flag → Type 0
  WrittenFlags (upsert_flag flag) before after = Upserted (λ f. f.key) flag before after
  WrittenFlags (delete_flag key) before after = Deleted (λ f. f.key) key before after
  WrittenFlags delete_project before after = after ≡ []
  WrittenFlags other before after = after ≡ before

  abbrev pub WrittenSegments : Change → List Segment → List Segment → Type 0
  WrittenSegments (upsert_segment segment) before after = Upserted (λ s. s.key) segment before after
  WrittenSegments (delete_segment key) before after = Deleted (λ s. s.key) key before after
  WrittenSegments delete_project before after = after ≡ []
  WrittenSegments other before after = after ≡ before

  abbrev pub written_config :
      Change
      → String
      → String
      → StoreResult (Option FlagEnvConfig)
      → StoreResult (Option FlagEnvConfig)
  written_config (upsert_flag_env_config f e config) flag environment before =
      if f == flag && e == environment then ok (some config) else before
  written_config (delete_flag_env_config f e) flag environment before =
      if f == flag && e == environment then ok none else before
  written_config (delete_flag key) flag environment before =
      if flag == key then gone before else before
  written_config (delete_environment key) flag environment before =
      if environment == key then gone before else before
  written_config delete_project flag environment before = gone before
  written_config other flag environment before = before

  abbrev pub written_environment :
      Change → String → StoreResult (Option Environment) → StoreResult (Option Environment)
  written_environment (upsert_environment env) environment before =
      if env.key == environment then ok (some env) else before
  written_environment (delete_environment key) environment before =
      if environment == key then gone before else before
  written_environment delete_project environment before = gone before
  written_environment other environment before = before

  -- The reads of a project before and after a change is written.
  pub record Written (change : Change) (before after : Reads) : Type 0 where
    pub flags : Listed (WrittenFlags change) before.list_flags after.list_flags
    pub segments : Listed (WrittenSegments change) before.list_segments after.list_segments
    pub configs :
        (flag environment : String)
        → after.get_flag_env_config flag environment
          ≡ written_config change flag environment (before.get_flag_env_config flag environment)
    pub environments :
        (environment : String)
        → after.get_environment environment
          ≡ written_environment change environment (before.get_environment environment)

  -- The environments that a change leaves in the store.
  abbrev pub Stays : Change → String → Type 0
  Stays (delete_environment key) environment = (environment == key) ≡ false
  Stays delete_project environment = ⊥
  Stays other environment = Unit {0}
