-- ===== src/Server/Recompile/Announced.antt =====
-- The ordering of crates/flaps-server/src/sync.rs: a version that was announced can be downloaded, or a newer one.
use flaps.Prelude.{
  ℕ, suc, ◌+◌, ◌^◌, ◌≤◌, ◌<◌, ◌≡◌, refl, sym, ap, ◌∙◌, subst, inl, inr, String, true, ◌&&◌, Option,
  none, some, List, [], ◌∷◌, Result, ok, err, ◌==◌, eq_iff, All, Bool-cases, arith, length,
}
use mathlib.Core.Option.{some-injective}
use flaps.Numbers.{Numbers}
use flaps.Compiler.Environment.{CompiledRuleset, TextFormat, next_version}
use flaps.Server.ApiErrors.{ApiError}
use flaps.Server.Sync.{CompiledCache, SyncEvent, cached}
use flaps.Server.Recompile.{Reads}
use flaps.Server.Recompile.Cache.{
  Published, put_cached, install, installed, install_in_cache, recompile_environment,
  recompile_committed, cached-put_cached, cached-put_cached-other, both,
}
use flaps.Server.Recompile.Commit.{Continues, recompiled, recompiled-Continues}

-- The entry that an event announced: its version or a later one.
abbrev pub Current : CompiledCache → SyncEvent → Type 0
Current cache event =
    (entry : CompiledRuleset) × (cached event.project event.environment cache ≡ some entry)
    × (event.version ≤ entry.version)

abbrev pub Announced : Published → Type 0
Announced s = All (Current s.cache) s.events

-- No version is above a number.
abbrev pub VersionsUpTo : ℕ → CompiledCache → Type 0
VersionsUpTo n cache =
    (project environment : String) (entry : CompiledRuleset)
    → cached project environment cache ≡ some entry
    → entry.version ≤ n

pub All-map :
    {A : Type 0} (P Q : A → Type 0) (xs : List A) → ((x : A) → P x → Q x) → All P xs → All Q xs
All-map P Q [] f all = tt
All-map P Q (x ∷ xs) f (px, all) = (f x px, All-map P Q xs f all)

next_version-le :
    (entry : CompiledRuleset) (hash : String)
    → entry.version + 1 < 2 ^ 64
    → (entry.version ≤ next_version (some entry) hash)
      × (next_version (some entry) hash ≤ entry.version + 1)
unfolding next_version
next_version-le entry hash h = elim (Bool-cases (entry.content_hash == hash)) [
  | inl same ↦ rw same (omega arith, omega arith)
  | inr other ↦ rw other (omega (arith, h), omega (arith, h))
]

next_version-le_bound :
    (n : ℕ) (previous : Option CompiledRuleset) (hash : String)
    → n + 1 < 2 ^ 64
    → ((entry : CompiledRuleset) → previous ≡ some entry → entry.version ≤ n)
    → next_version previous hash ≤ n + 1
unfolding next_version
next_version-le_bound n none hash h bound = omega arith
next_version-le_bound n (some entry) hash h bound =
    let small = bound entry refl in
    omega (arith, small, h, (next_version-le entry hash (omega (arith, small, h))).1)

same_scope : (p q e f : String) → (p == q && e == f) ≡ true → (p ≡ q) × (e ≡ f)
same_scope p q e f same = let (x, y) = both _ _ same in ((eq_iff p q).0 x, (eq_iff e f).0 y)

module _ (n : ℕ) (fits : n + 1 < 2 ^ 64) (project : String) (s : Published)
    (below : VersionsUpTo n s.cache) where
  install-Current :
      (compiled : CompiledRuleset) (event : SyncEvent)
      → compiled.version
        ≡ next_version (cached project compiled.environment s.cache) compiled.content_hash
      → Current s.cache event
      → Current (put_cached project compiled.environment compiled s.cache) event
  install-Current compiled event e (entry, there, old) =
      elim (Bool-cases (project == event.project && compiled.environment == event.environment)) [
        | inl same ↦
            let (here, also) =
              same_scope project event.project compiled.environment event.environment same in
            let was =
              ap (λ x. cached x compiled.environment s.cache) here
              ∙ ap (λ x. cached event.project x s.cache) also
              ∙ there in
            let later =
              (next_version-le entry compiled.content_hash
                (omega (arith, below event.project event.environment entry there, fits))).0 in
            (
              compiled,
              subst
                  (λ x.
                    cached x event.environment
                      (put_cached project compiled.environment compiled s.cache)
                    ≡ some compiled)
                  here
                  (subst
                    (λ x.
                      cached project x (put_cached project compiled.environment compiled s.cache)
                      ≡ some compiled)
                    also (cached-put_cached project compiled.environment compiled s.cache)),
              omega (arith, old, later, e, ap (λ x. next_version x compiled.content_hash) was),
            )
        | inr other ↦ (
          entry,
          cached-put_cached-other project compiled.environment event.project event.environment
                compiled s.cache other
              ∙ there,
          old,
        )
      ]

  install-VersionsUpTo :
      (compiled : CompiledRuleset)
      → compiled.version
        ≡ next_version (cached project compiled.environment s.cache) compiled.content_hash
      → VersionsUpTo (n + 1) (put_cached project compiled.environment compiled s.cache)
  install-VersionsUpTo compiled e p f entry there =
      elim (Bool-cases (project == p && compiled.environment == f)) [
        | inl same ↦
            let (here, also) = same_scope project p compiled.environment f same in
            let is = some-injective _ _ (
              sym (
                subst
                  (λ x.
                    cached x f (put_cached project compiled.environment compiled s.cache)
                    ≡ some compiled)
                  here
                  (subst
                    (λ x.
                      cached project x (put_cached project compiled.environment compiled s.cache)
                      ≡ some compiled)
                    also (cached-put_cached project compiled.environment compiled s.cache)))
              ∙ there) in
            omega (
              arith,
              ap (λ x. x.version) is,
              e,
              next_version-le_bound n (cached project compiled.environment s.cache)
                  compiled.content_hash fits (below project compiled.environment),
            )
        | inr other ↦ omega (
          arith,
          below p f entry (
              sym (cached-put_cached-other project compiled.environment p f compiled s.cache other)
              ∙ there),
        )
      ]

-- What a recompilation keeps: where no version is above a number, none is above the next, and what was announced is current.
pub record Kept (n : ℕ) (s : Published) : Type 0 where
  pub versions : VersionsUpTo n s.cache
  pub announced : Announced s

module _ ⦃num : Numbers⦄ (format : TextFormat) (reads : Reads) (project : String) where
  weaker : (n m : ℕ) (s : Published) → n ≤ m → Kept n s → Kept m s
  weaker n m s h kept = record {
    versions = λ p e entry there. omega (arith, h, kept.versions p e entry there);
    announced = kept.announced;
  }

  installed-Kept :
      (n : ℕ)
      → n + 1 < 2 ^ 64
      → (s : Published) (environment : String) (result : Result ApiError CompiledRuleset)
      → ((compiled : CompiledRuleset)
          → result ≡ ok compiled
          → Continues environment (cached project environment s.cache) compiled)
      → Kept n s
      → Kept (n + 1) (installed format reads project result s).1
  unfolding installed install_in_cache install
  installed-Kept n fits s environment (err e) continues kept = weaker n (n + 1) s (omega arith) kept
  installed-Kept n fits s environment (ok compiled) continues kept =
      let (named, version) = continues compiled refl in
      let follows =
        version
        ∙ ap (λ x. next_version (cached project x s.cache) compiled.content_hash) (sym named) in
      record {
        versions = install-VersionsUpTo n fits project s kept.versions compiled follows;
        announced = (
          (compiled, cached-put_cached project compiled.environment compiled s.cache, omega arith),
          All-map (Current s.cache)
              (Current (put_cached project compiled.environment compiled s.cache)) s.events
              (λ event. install-Current n fits project s kept.versions compiled event follows)
              kept.announced,
        );
      }

  recompile_environment-Kept :
      (n : ℕ)
      → n + 1 < 2 ^ 64
      → (s : Published) (environment : String) → Kept n s
      → Kept (n + 1) (recompile_environment format reads project environment s).1
  unfolding recompile_environment recompiled
  recompile_environment-Kept n fits s environment =
      installed-Kept n fits s environment (recompiled format reads project s.cache environment)
        (λ c e. recompiled-Continues format reads project s.cache environment e)

  recompile_committed-Kept :
      (affected : List String) (n : ℕ) (s : Published)
      → n + length affected < 2 ^ 64
      → Kept n s
      → Kept (n + length affected) (recompile_committed format reads project affected s)
  unfolding recompile_committed
  recompile_committed-Kept [] n s fits kept = weaker n (n + 0) s (omega arith) kept
  recompile_committed-Kept (environment ∷ rest) n s fits kept =
      weaker (n + 1 + length rest) (n + suc (length rest)) _ (omega arith) (
        recompile_committed-Kept rest (n + 1)
          (recompile_environment format reads project environment s).1 (omega (arith, fits))
          (recompile_environment-Kept n (omega (arith, fits)) s environment kept))

  -- `recompile_committed` keeps the promise of the bus, whatever the store answers: where every event sent so far announces the version
  -- of its environment's cache entry or an earlier one, and no version is above a number that leaves room below 2 ^ 64 for the
  -- recompilations, every event sent then does too, those of the recompilations included.
  pub recompile_committed-Announced :
      (affected : List String) (n : ℕ) (s : Published)
      → n + length affected < 2 ^ 64
      → VersionsUpTo n s.cache
      → Announced s
      → Announced (recompile_committed format reads project affected s)
  recompile_committed-Announced affected n s fits versions announced =
      (recompile_committed-Kept affected n s fits
        (record { versions = versions; announced = announced })).announced
