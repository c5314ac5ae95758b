-- ===== src/Server/Recompile/Cache.antt =====
-- The cache of crates/flaps-server/src/recompile.rs: what is installed, evicted and announced.
use flaps.Prelude.{
  ◌≡◌, refl, sym, ap, ◌∙◌, inl, inr, String, Bool, true, false, ◌&&◌, none, some, List, [], ◌∷◌,
  Result, ok, err, ◌==◌, eq_iff, if◌then◌else◌, Bool-cases,
}
use flaps.Numbers.{Numbers}
use flaps.Compiler.Environment.{CompiledRuleset, TextFormat}
use flaps.Server.ApiErrors.{ApiError}
use flaps.Server.Sync.{CompiledCache, SyncEvent, cached}
use flaps.Server.Recompile.{upsert_project, Reads, compile_env_with_overlay}

-- `HashMap::insert`, `remove` and the two evictions.
unfoldable pub put_cached : String → String → CompiledRuleset → CompiledCache → CompiledCache
put_cached project environment compiled [] = ((project, environment), compiled) ∷ []
put_cached project environment compiled (((p, e), old) ∷ rest) =
    let later = put_cached project environment compiled rest in
    if p == project && e == environment then ((p, e), compiled) ∷ rest else ((p, e), old) ∷ later

unfoldable pub evict_project_from_cache : String → CompiledCache → CompiledCache
evict_project_from_cache project [] = []
evict_project_from_cache project (((p, e), compiled) ∷ rest) =
    let kept = evict_project_from_cache project rest in
    if p == project then kept else ((p, e), compiled) ∷ kept

unfoldable pub evict_environment_from_cache : String → String → CompiledCache → CompiledCache
evict_environment_from_cache project environment [] = []
evict_environment_from_cache project environment (((p, e), compiled) ∷ rest) =
    let kept = evict_environment_from_cache project environment rest in
    if p == project && e == environment then kept else ((p, e), compiled) ∷ kept

-- The cache and the events sent on the bus, the newest first.
pub record Published : Type 0 where
  pub cache : CompiledCache
  pub events : List SyncEvent

unfoldable pub install : String → CompiledRuleset → Published → Published
unfolding put_cached
install project compiled s = record {
  cache = put_cached project compiled.environment compiled s.cache;
  events =
      record { project = project; environment = compiled.environment; version = compiled.version }
      ∷ s.events;
}

unfoldable pub install_in_cache : String → List CompiledRuleset → Published → Published
unfolding install
install_in_cache project [] s = s
install_in_cache project (compiled ∷ rest) s =
    install_in_cache project rest (install project compiled s)

module _ ⦃num : Numbers⦄ (format : TextFormat) (reads : Reads) (project : String) where
  unfoldable pub installed :
      Result ApiError CompiledRuleset → Published → Result ApiError (Unit {0}) × Published
  unfolding install_in_cache
  installed (err e) s = (err e, s)
  installed (ok compiled) s = (ok tt, install_in_cache project (compiled ∷ []) s)

  unfoldable pub recompile_environment : String → Published → Result ApiError (Unit {0}) × Published
  unfolding compile_env_with_overlay installed
  recompile_environment environment s =
      installed (compile_env_with_overlay format reads s.cache project environment upsert_project) s

  -- Every environment is tried; the error of one is logged.
  unfoldable pub recompile_committed : List String → Published → Published
  unfolding recompile_environment
  recompile_committed [] s = s
  recompile_committed (environment ∷ rest) s =
      recompile_committed rest (recompile_environment environment s).1

-- What `get` finds after an insertion and after an eviction.
same_key : (p q : String) → (p == q) ≡ true → p ≡ q
same_key p q h = (eq_iff p q).0 h

pub self : (p : String) → (p == p) ≡ true
self p = (eq_iff p p).1 refl

pub cached-put_cached :
    (p e : String) (compiled : CompiledRuleset) (m : CompiledCache)
    → cached p e (put_cached p e compiled m) ≡ some compiled
unfolding cached put_cached
cached-put_cached p e compiled [] = rw (self p, self e) refl
cached-put_cached p e compiled (((q, f), old) ∷ rest) = elim (Bool-cases (q == p)) [
  | inl same ↦ elim (Bool-cases (f == e)) [
    | inl also ↦ rw (same, also, same, also) refl
    | inr other ↦ rw (same, other, same, other) (cached-put_cached p e compiled rest)
  ]
  | inr other ↦ rw (other, other) (cached-put_cached p e compiled rest)
]

apart :
    {A : Type 0} (x y : Bool) (a b : A)
    → (x && y) ≡ false
    → (if x then (if y then a else b) else b) ≡ b
apart true true a b h = cc
apart true false a b h = refl
apart false y a b h = refl

pub both : (x y : Bool) → (x && y) ≡ true → (x ≡ true) × (y ≡ true)
both true true h = (refl, refl)
both true false h = cc
both false y h = cc

same_test :
    (r p g e q f : String)
    → (r == p && g == e) ≡ true
    → (p == q && e == f) ≡ false
    → (r == q && g == f) ≡ false
same_test r p g e q f same h =
    let (first, second) = both _ _ same in rw (same_key r p first, same_key g e second) h

pub cached-put_cached-other :
    (p e q f : String) (compiled : CompiledRuleset) (m : CompiledCache)
    → (p == q && e == f) ≡ false
    → cached q f (put_cached p e compiled m) ≡ cached q f m
unfolding cached put_cached
cached-put_cached-other p e q f compiled [] h = apart (p == q) (e == f) (some compiled) none h
cached-put_cached-other p e q f compiled (((r, g), old) ∷ rest) h =
    elim (Bool-cases (r == p && g == e)) [
      | inl same ↦ rw same (
          apart (r == q) (g == f) (some compiled) (cached q f rest) (same_test r p g e q f same h)
          ∙ sym
              (apart (r == q) (g == f) (some old) (cached q f rest) (same_test r p g e q f same h)))
      | inr other ↦ rw other (
          ap (λ x. if r == q then (if g == f then some old else x) else x)
            (cached-put_cached-other p e q f compiled rest h))
    ]

pub cached-evict_project :
    (p e : String) (m : CompiledCache) → cached p e (evict_project_from_cache p m) ≡ none
unfolding cached evict_project_from_cache
cached-evict_project p e [] = refl
cached-evict_project p e (((q, f), old) ∷ rest) = elim (Bool-cases (q == p)) [
  | inl same ↦ rw same (cached-evict_project p e rest)
  | inr other ↦ rw (other, other) (cached-evict_project p e rest)
]

pub cached-evict_project-other :
    (p q f : String) (m : CompiledCache)
    → (p == q) ≡ false
    → cached q f (evict_project_from_cache p m) ≡ cached q f m
unfolding cached evict_project_from_cache
cached-evict_project-other p q f [] h = refl
cached-evict_project-other p q f (((r, g), old) ∷ rest) h = elim (Bool-cases (r == p)) [
  | inl same ↦ rw (same, same_key r p same, h) (cached-evict_project-other p q f rest h)
  | inr other ↦ rw other (
      ap (λ x. if r == q then (if g == f then some old else x) else x)
        (cached-evict_project-other p q f rest h))
]

pub cached-evict_environment :
    (p e : String) (m : CompiledCache) → cached p e (evict_environment_from_cache p e m) ≡ none
unfolding cached evict_environment_from_cache
cached-evict_environment p e [] = refl
cached-evict_environment p e (((r, g), old) ∷ rest) = elim (Bool-cases (r == p && g == e)) [
  | inl same ↦ rw same (cached-evict_environment p e rest)
  | inr other ↦
      rw other (apart (r == p) (g == e) (some old) _ other ∙ cached-evict_environment p e rest)
]

pub cached-evict_environment-other :
    (p e q f : String) (m : CompiledCache)
    → (p == q && e == f) ≡ false
    → cached q f (evict_environment_from_cache p e m) ≡ cached q f m
unfolding cached evict_environment_from_cache
cached-evict_environment-other p e q f [] h = refl
cached-evict_environment-other p e q f (((r, g), old) ∷ rest) h =
    elim (Bool-cases (r == p && g == e)) [
      | inl same ↦ rw same (
          cached-evict_environment-other p e q f rest h
          ∙ sym
              (apart (r == q) (g == f) (some old) (cached q f rest) (same_test r p g e q f same h)))
      | inr other ↦ rw other (
          ap (λ x. if r == q then (if g == f then some old else x) else x)
            (cached-evict_environment-other p e q f rest h))
    ]
