-- ===== src/Server/Recompile/Commit.antt =====
-- The cache after a mutation is committed: recompiling one environment does not depend on the others, and what was announced stays true.
use flaps.Prelude.{
  ◌≡◌, refl, ap, ◌∙◌, subst, String, false, Option, some, List, [], ◌∷◌, ◌++◌, Result, ok, err,
  ◌==◌, eq_iff, All, >>=-eq-ok, ok-injective,
}
use flaps.Numbers.{Numbers}
use flaps.Compiler.Environment.{
  CompiledRuleset, TextFormat, compile_environment, next_version, FlagConfig, compile_flags,
  rejected,
}
use flaps.Compiler.Errors.{CompileError}
use flaps.Compiler.Flag.{compile_metadata}
use flaps.Eval.Serialize.{to_json}
use flaps.Eval.Parse.Document.{from_json}
use flaps.Compiler.Flag.{Segments}
use flaps.Eval.Model.{Metadata}
use flaps.Server.ApiErrors.{ApiError}
use flaps.Server.Sync.{CompiledCache, cached}
use flaps.Server.Recompile.{
  upsert_project, Reads, compile_env_with_overlay, validated, read, flag_configs,
  environment_metadata, segment_lookup, overlay_flags, overlay_segments,
}
use flaps.Server.Recompile.Cache.{
  Published, install, installed, install_in_cache, recompile_environment, recompile_committed,
  cached-put_cached, cached-put_cached-other,
}

module _ ⦃num : Numbers⦄ where
  -- What a compiled ruleset says of itself.
  abbrev pub Continues : String → Option CompiledRuleset → CompiledRuleset → Type 0
  Continues environment previous compiled =
      (compiled.environment ≡ environment)
      × (compiled.version ≡ next_version previous compiled.content_hash)

  compile_environment-Continues :
      (format : TextFormat) (environment : String) (configs : List FlagConfig) (segments : Segments)
      (metadata : Metadata) (previous : Option CompiledRuleset) {compiled : CompiledRuleset}
      → compile_environment format environment configs segments metadata previous ≡ ok compiled
      → Continues environment previous compiled
  unfolding compile_environment
  compile_environment-Continues format environment configs segments metadata previous e =
      let (flags, _, next) = >>=-eq-ok (compile_flags configs segments []) _ e in
      let document =
        to_json format.print (record { flags = flags; metadata = compile_metadata metadata }) in
      let (_, _, last) =
        >>=-eq-ok (rejected environment (from_json format.parse document)) _ next in
      subst (Continues environment previous) (ok-injective last) (refl, refl)

  validated-ok :
      (result : Result CompileError CompiledRuleset) {compiled : CompiledRuleset}
      → validated result ≡ ok compiled
      → result ≡ ok compiled
  unfolding validated
  validated-ok (ok a) h = ap ok (ok-injective h)
  validated-ok (err e) h = cc

module _ ⦃num : Numbers⦄ (format : TextFormat) (reads : Reads) (project : String) where
  unfoldable pub recompiled : CompiledCache → String → Result ApiError CompiledRuleset
  recompiled cache environment =
      compile_env_with_overlay format reads cache project environment upsert_project

  pub recompiled-Continues :
      (cache : CompiledCache) (environment : String) {compiled : CompiledRuleset}
      → recompiled cache environment ≡ ok compiled
      → Continues environment (cached project environment cache) compiled
  unfolding recompiled compile_env_with_overlay overlay_flags overlay_segments
  recompiled-Continues cache environment e =
      let (flags, _, a) = >>=-eq-ok (read reads.list_flags) _ e in
      let (segments, _, b) = >>=-eq-ok (read reads.list_segments) _ a in
      let (configs, _, c) = >>=-eq-ok (flag_configs upsert_project reads environment flags) _ b in
      let (metadata, _, d) =
        >>=-eq-ok (environment_metadata upsert_project reads environment) _ c in
      compile_environment-Continues format environment configs (segment_lookup segments []) metadata
        (cached project environment cache) (validated-ok _ d)

  -- A compilation looks at no entry of the cache but its own.
  recompiled_own :
      (cache other : CompiledCache) (environment : String)
      → cached project environment cache ≡ cached project environment other
      → recompiled cache environment ≡ recompiled other environment
  unfolding recompiled compile_env_with_overlay
  recompiled_own cache other environment e = rw e refl

  -- The entry after a compilation: the new one, or the old one where there is none.
  abbrev pub replaced :
      Result ApiError CompiledRuleset → Option CompiledRuleset → Option CompiledRuleset
  replaced (ok compiled) old = some compiled
  replaced (err e) old = old

  installed_own :
      (result : Result ApiError CompiledRuleset) (environment : String) (s : Published)
      → ((compiled : CompiledRuleset) → result ≡ ok compiled → compiled.environment ≡ environment)
      → cached project environment (installed format reads project result s).1.cache
        ≡ replaced result (cached project environment s.cache)
  unfolding installed install_in_cache install
  installed_own (err e) environment s h = refl
  installed_own (ok compiled) environment s h =
      rw (← h compiled refl) (cached-put_cached project compiled.environment compiled s.cache)

  installed_other :
      (result : Result ApiError CompiledRuleset) (environment other : String) (s : Published)
      → ((compiled : CompiledRuleset) → result ≡ ok compiled → compiled.environment ≡ environment)
      → (environment == other) ≡ false
      → cached project other (installed format reads project result s).1.cache
        ≡ cached project other s.cache
  unfolding installed install_in_cache install
  installed_other (err e) environment other s h apart = refl
  installed_other (ok compiled) environment other s h apart =
      cached-put_cached-other project compiled.environment project other compiled s.cache
        (rw ((eq_iff project project).1 refl, h compiled refl, apart) refl)

  recompile_environment-own :
      (environment : String) (s : Published)
      → cached project environment
          (recompile_environment format reads project environment s).1.cache
        ≡ replaced (recompiled s.cache environment) (cached project environment s.cache)
  unfolding recompile_environment recompiled
  recompile_environment-own environment s =
      installed_own (recompiled s.cache environment) environment s
        (λ c e. (recompiled-Continues s.cache environment e).0)

  recompile_environment-other :
      (environment other : String) (s : Published)
      → (environment == other) ≡ false
      → cached project other (recompile_environment format reads project environment s).1.cache
        ≡ cached project other s.cache
  unfolding recompile_environment recompiled
  recompile_environment-other environment other s =
      installed_other (recompiled s.cache environment) environment other s
        (λ c e. (recompiled-Continues s.cache environment e).0)

  -- Environments that do not include one.
  abbrev pub Without : String → List String → Type 0
  Without environment = All (λ other. (other == environment) ≡ false)

  recompile_committed-other :
      (affected : List String) (environment : String) (s : Published)
      → Without environment affected
      → cached project environment (recompile_committed format reads project affected s).cache
        ≡ cached project environment s.cache
  unfolding recompile_committed
  recompile_committed-other [] environment s apart = refl
  recompile_committed-other (first ∷ rest) environment s (apart, others) =
      recompile_committed-other rest environment
        (recompile_environment format reads project first s).1 others
      ∙ recompile_environment-other first environment s apart

  recompile_committed-append :
      (xs ys : List String) (s : Published)
      → recompile_committed format reads project (xs ++ ys) s
        ≡ recompile_committed format reads project ys
            (recompile_committed format reads project xs s)
  unfolding recompile_committed
  recompile_committed-append [] ys s = refl
  recompile_committed-append (x ∷ xs) ys s =
      recompile_committed-append xs ys (recompile_environment format reads project x s).1

  -- After `recompile_committed`, the cache entry of an affected environment, which is there once, is what compiling it from the store
  -- gives, the version continued from its entry before, or that entry where this compilation fails: the environments before and
  -- behind it, and their failures, make no difference.
  pub recompile_committed-own :
      (first : List String) (environment : String) (rest : List String) (s : Published)
      → Without environment first
      → Without environment rest
      → cached project environment
          (recompile_committed format reads project (first ++ (environment ∷ rest)) s).cache
        ≡ replaced
            (compile_env_with_overlay format reads s.cache project environment upsert_project)
            (cached project environment s.cache)
  unfolding recompile_committed recompiled
  recompile_committed-own first environment rest s before behind =
      let reached = recompile_committed format reads project first s in
      let kept = recompile_committed-other first environment s before in
      ap (λ x. cached project environment x.cache)
        (recompile_committed-append first (environment ∷ rest) s)
      ∙ recompile_committed-other rest environment
          (recompile_environment format reads project environment reached).1 behind
      ∙ recompile_environment-own environment reached
      ∙ rw (recompiled_own reached.cache s.cache environment kept, kept) refl
