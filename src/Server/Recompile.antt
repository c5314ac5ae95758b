-- ===== src/Server/Recompile.antt =====
-- crates/flaps-server/src/recompile.rs: a change is compiled over what the store has, and the cache is filled from it. The
-- bus is the events sent on it so far, the newest first.
pub mod Cache
pub mod Commit
pub mod Announced
pub mod Writes
pub mod Overlay
pub mod Frames
use flaps.Prelude.{
  ℕ, String, Bool, true, false, not, ◌&&◌, Option, none, some, List, [], ◌∷◌, ◌++◌, Result, ok, err,
  ◌>>=◌, ◌>>◌, ◌==◌, if◌then◌else◌, map,
}
use flaps.Prelude.Map
use flaps.Prelude.Map.{BTreeMap}
use flaps.Numbers.{Numbers}
use flaps.Eval.Model.{Metadata}
use flaps.Domain.Rollout.{FlagEnvConfig}
use flaps.Domain.Records.{Flag, Segment, Environment}
use flaps.Compiler.Errors.{Compiled}
use flaps.Compiler.Flag.{Segments}
use flaps.Compiler.Environment.{
  CompiledRuleset, FlagConfig, TextFormat, compile_environment, environments_referencing_segment,
}
use flaps.Server.ApiErrors.{ApiError, StoreError, from_store_error, validation}
use flaps.Server.Sync.{CompiledCache, SyncEvent, cached}

abbrev pub StoreResult : Type 0 → Type 0
StoreResult A = Result StoreError A

-- `map_err(ApiError::from)`, and `map_err(ApiError::Validation)`.
unfoldable pub read : {A : Type 0} → StoreResult A → Result ApiError A
read (ok a) = ok a
read (err e) = err (from_store_error e)

unfoldable pub validated : Compiled CompiledRuleset → Result ApiError CompiledRuleset
validated (ok compiled) = ok compiled
validated (err e) = err (validation e)

-- A value of a key in a list: in the place of the first of the key, or behind the others; and a list without a key.
unfoldable pub put : {A : Type 0} → (A → String) → A → List A → List A
put key new [] = new ∷ []
put key new (old ∷ rest) =
    let later = put key new rest in if key old == key new then new ∷ rest else old ∷ later

unfoldable pub without : {A : Type 0} → (A → String) → String → List A → List A
without key gone [] = []
without key gone (a ∷ rest) =
    let later = without key gone rest in if key a == gone then later else a ∷ later

module _ ⦃num : Numbers⦄ where
  pub data Change : Type 0 where
    upsert_flag : Flag → Change
    delete_flag : String → Change
    upsert_segment : Segment → Change
    delete_segment : String → Change
    upsert_flag_env_config : String → String → FlagEnvConfig → Change
    delete_flag_env_config : String → String → Change
    upsert_environment : Environment → Change
    delete_environment : String → Change
    upsert_project delete_project : Change

  -- What recompilation reads of a project in the store.
  pub record Reads : Type 0 where
    pub list_flags : StoreResult (List Flag)
    pub list_segments : StoreResult (List Segment)
    pub list_environments : StoreResult (List Environment)
    pub get_flag_env_config : String → String → StoreResult (Option FlagEnvConfig)
    pub get_environment : String → StoreResult (Option Environment)

  unfoldable pub overlay_flags : Change → List Flag → List Flag
  unfolding put without
  overlay_flags (upsert_flag flag) flags = put (λ f. f.key) flag flags
  overlay_flags (delete_flag key) flags = without (λ f. f.key) key flags
  overlay_flags other flags = flags

  unfoldable pub overlay_segments : Change → List Segment → List Segment
  unfolding put without
  overlay_segments (upsert_segment segment) segments = put (λ s. s.key) segment segments
  overlay_segments (delete_segment key) segments = without (λ s. s.key) key segments
  overlay_segments other segments = segments

  -- `Segments::new`
  unfoldable pub segment_lookup : List Segment → Segments → Segments
  segment_lookup [] m = m
  segment_lookup (s ∷ rest) m = segment_lookup rest (Map.insert s.key s.match_expr m)

  unfoldable pub config_of :
      Change → Reads → String → String → Result ApiError (Option FlagEnvConfig)
  unfolding read
  config_of (upsert_flag_env_config f e config) reads flag environment =
      if f == flag && e == environment
      then ok (some config)
      else read (reads.get_flag_env_config flag environment)
  config_of (delete_flag_env_config f e) reads flag environment =
      if f == flag && e == environment
      then ok none
      else read (reads.get_flag_env_config flag environment)
  config_of other reads flag environment = read (reads.get_flag_env_config flag environment)

  unfoldable pub with_config : Flag → Option FlagEnvConfig → List FlagConfig → List FlagConfig
  with_config flag none rest = rest
  with_config flag (some config) rest =
      record { key = flag.key; variants = flag.variants; metadata = flag.metadata; config = config }
      ∷ rest

  unfoldable pub flag_configs :
      Change → Reads → String → List Flag → Result ApiError (List FlagConfig)
  unfolding config_of with_config
  flag_configs change reads environment [] = ok []
  flag_configs change reads environment (flag ∷ flags) = do
    config ← config_of change reads flag.key environment
    rest ← flag_configs change reads environment flags
    ok (with_config flag config rest)

  unfoldable pub metadata_or_default : Option Environment → Metadata
  metadata_or_default none = []
  metadata_or_default (some environment) = environment.metadata

  unfoldable pub read_metadata : Reads → String → Result ApiError Metadata
  unfolding read metadata_or_default
  read_metadata reads environment = do
    found ← read (reads.get_environment environment)
    ok (metadata_or_default found)

  unfoldable pub environment_metadata : Change → Reads → String → Result ApiError Metadata
  unfolding read_metadata
  environment_metadata (upsert_environment env) reads environment =
      if env.key == environment then ok env.metadata else read_metadata reads environment
  environment_metadata other reads environment = read_metadata reads environment

  unfoldable pub compile_env_with_overlay :
      TextFormat
      → Reads
      → CompiledCache
      → String
      → String
      → Change
      → Result ApiError CompiledRuleset
  unfolding read overlay_flags overlay_segments segment_lookup flag_configs environment_metadata
      validated cached
  compile_env_with_overlay format reads cache project environment change = do
    flags ← read reads.list_flags
    segments ← read reads.list_segments
    configs ← flag_configs change reads environment (overlay_flags change flags)
    metadata ← environment_metadata change reads environment
    validated (
        compile_environment format environment configs
          (segment_lookup (overlay_segments change segments) []) metadata
          (cached project environment cache))

  configured : Reads → String → List Environment → Result ApiError (List String)
  unfolding read
  configured reads flag [] = ok []
  configured reads flag (environment ∷ rest) = do
    config ← read (reads.get_flag_env_config flag environment.key)
    more ← configured reads flag rest
    ok (elim config [ none ↦ more | some c ↦ environment.key ∷ more ])

  unfoldable pub envs_with_flag_config : Reads → String → Result ApiError (List String)
  unfolding configured read
  envs_with_flag_config reads flag = do
    environments ← read reads.list_environments
    configured reads flag environments

  -- `by_env.entry(env_key).or_default().push(..)`
  push_config : String → FlagConfig → BTreeMap (List FlagConfig) → BTreeMap (List FlagConfig)
  push_config environment config m = elim (Map.get environment m) [
    | none ↦ Map.insert environment (config ∷ []) m
    | some configs ↦ Map.insert environment (configs ++ (config ∷ [])) m
  ]

  push_found :
      String → Flag → Option FlagEnvConfig → BTreeMap (List FlagConfig) → BTreeMap (List FlagConfig)
  unfolding push_config
  push_found environment flag none m = m
  push_found environment flag (some config) m =
      push_config environment
        (record {
          key = flag.key;
          variants = flag.variants;
          metadata = flag.metadata;
          config = config;
        })
        m

  of_flags :
      Reads
      → String
      → List Flag
      → BTreeMap (List FlagConfig)
      → Result ApiError (BTreeMap (List FlagConfig))
  unfolding read push_found
  of_flags reads environment [] m = ok m
  of_flags reads environment (flag ∷ flags) m = do
    config ← read (reads.get_flag_env_config flag.key environment)
    of_flags reads environment flags (push_found environment flag config m)

  of_environments :
      Reads
      → List Environment
      → List Flag
      → BTreeMap (List FlagConfig)
      → Result ApiError (BTreeMap (List FlagConfig))
  unfolding of_flags
  of_environments reads [] flags m = ok m
  of_environments reads (environment ∷ rest) flags m = do
    grouped ← of_flags reads environment.key flags m
    of_environments reads rest flags grouped

  unfoldable pub envs_referencing_seg : Reads → String → Result ApiError (List String)
  unfolding read of_environments
  envs_referencing_seg reads segment = do
    environments ← read reads.list_environments
    flags ← read reads.list_flags
    by_env ← of_environments reads environments flags []
    ok (environments_referencing_segment segment by_env)

  project_environments : Reads → Result ApiError (List String)
  unfolding read
  project_environments reads = do
    environments ← read reads.list_environments
    ok (map (λ e. e.key) environments)

  unfoldable pub affected_environments : Reads → Change → Result ApiError (List String)
  unfolding envs_with_flag_config envs_referencing_seg project_environments
  affected_environments reads (upsert_environment env) = ok (env.key ∷ [])
  affected_environments reads (delete_environment key) = ok (key ∷ [])
  affected_environments reads (upsert_flag flag) = envs_with_flag_config reads flag.key
  affected_environments reads (delete_flag key) = envs_with_flag_config reads key
  affected_environments reads (upsert_flag_env_config flag environment config) =
      ok (environment ∷ [])
  affected_environments reads (delete_flag_env_config flag environment) = ok (environment ∷ [])
  affected_environments reads (upsert_segment segment) = envs_referencing_seg reads segment.key
  affected_environments reads (delete_segment key) = envs_referencing_seg reads key
  affected_environments reads upsert_project = project_environments reads
  affected_environments reads delete_project = project_environments reads

  unfoldable pub compile_all :
      TextFormat
      → Reads
      → CompiledCache
      → String
      → Change
      → List String
      → Result ApiError (List CompiledRuleset)
  unfolding compile_env_with_overlay
  compile_all format reads cache project change [] = ok []
  compile_all format reads cache project change (environment ∷ rest) = do
    compiled ← compile_env_with_overlay format reads cache project environment change
    more ← compile_all format reads cache project change rest
    ok (compiled ∷ more)

  compile_affected :
      TextFormat → Reads → CompiledCache → String → Change → Result ApiError (List CompiledRuleset)
  unfolding affected_environments compile_all
  compile_affected format reads cache project change = do
    environments ← affected_environments reads change
    compile_all format reads cache project change environments

  unfoldable pub validate_by_compiling :
      TextFormat → Reads → CompiledCache → String → Change → Result ApiError (List CompiledRuleset)
  unfolding compile_affected
  validate_by_compiling format reads cache project (delete_environment key) = ok []
  validate_by_compiling format reads cache project delete_project = ok []
  validate_by_compiling format reads cache project change =
      compile_affected format reads cache project change
