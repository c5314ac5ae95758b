-- ===== src/Examples/Recompiling.antt =====
-- A project's store, a change and the cache at concrete inputs.
use flaps.Prelude.{
  All, ◌≡◌, refl, Bool, true, none, some, [], ◌∷◌, ok, ◌==◌, ◌&&◌, if◌then◌else◌, arith, Bool-cases,
  none≢some, ap, inl, inr,
}
use mathlib.Core.Option.{some-injective}
use flaps.Json.{object, end, field}
use flaps.Domain.Errors.{ValueType}
use flaps.Domain.Records.{Flag, Segment, Environment, release, local}
use flaps.Compiler.Environment.{CompiledRuleset, TextFormat}
use flaps.Server.Sync.{cached}
use flaps.Server.Recompile.{Change, Reads, upsert_flag, upsert_project, compile_env_with_overlay}
use flaps.Server.Recompile.Cache.{Published, recompile_committed}
use flaps.Server.Recompile.Commit
use flaps.Server.Recompile.Commit.{recompile_committed-own}
use flaps.Server.Recompile.Announced.{Announced, VersionsUpTo, recompile_committed-Announced}
use flaps.Domain.SdkKey.{SdkKeyScope}
use flaps.Server.Recompile.Frames.{Reached, recompile_committed-frame_of}
use flaps.Server.Recompile.Writes.{replaced}
use flaps.Examples.Stubs.{integers}
use flaps.Examples.Configuration.{staff, domain, config}

-- A text format in which every text is an empty document.
abbrev format : TextFormat
format = record {
  print = λ v. "text";
  parse = λ t. some (object (field "flags" (object end) end));
  content_hash = λ t. "hash";
}

abbrev header : Flag
header = record {
  key = "header";
  name = "Header";
  description = none;
  flag_type = release;
  value_type = ValueType.string;
  variants = domain;
  metadata = [];
}

abbrev staff_segment : Segment
staff_segment = record { key = "staff"; name = "Staff"; match_expr = staff }

abbrev prod : Environment
prod = record {
  key = "prod";
  name = "Production";
  external_ref = none;
  managed_by = local;
  metadata = [];
}

abbrev store : Bool → Reads
store on = record {
  list_flags = ok (header ∷ []);
  list_segments = ok (staff_segment ∷ []);
  list_environments = ok (prod ∷ []);
  get_flag_env_config = λ flag environment.
      if "header" == flag && "prod" == environment then ok (some (config on)) else ok none;
  get_environment = λ environment. ok (some prod);
}

-- The header is renamed, while its configuration stays.
abbrev renamed : Flag
renamed = record header { name = "Page header" }

abbrev rename : Change
rename = upsert_flag renamed

abbrev renamed_store : Reads
renamed_store = record (store true) { list_flags = ok (renamed ∷ []) }

abbrev old : CompiledRuleset
old = record { environment = "prod"; document = "{}"; content_hash = "44136f"; version = 3 }

abbrev published : Published
published = record {
  cache = (("shop", "prod"), old) ∷ [];
  events = record { project = "shop"; environment = "prod"; version = 2 } ∷ [];
}

recompile_committed-own_example :
    cached "shop" "prod"
      (recompile_committed format
        (store true)
        "shop"
        ("dev" ∷ "prod" ∷ "stage" ∷ [])
        published).cache
    ≡ Commit.replaced format
        (store true)
        "shop"
        (compile_env_with_overlay format (store true) published.cache "shop" "prod" upsert_project)
        (cached "shop" "prod" published.cache)
recompile_committed-own_example =
    recompile_committed-own format (store true) "shop" ("dev" ∷ []) "prod" ("stage" ∷ []) published
      (refl, tt) (refl, tt)

published_versions : VersionsUpTo 3 published.cache
unfolding cached
published_versions project environment entry there = elim (Bool-cases ("shop" == project)) [
  | inl same ↦ elim (Bool-cases ("prod" == environment)) [
    | inl also ↦
        omega (arith, ap (λ x. x.version) (some-injective old entry (rw (same, also) at there)))
    | inr other ↦ elim (none≢some (rw (same, other) at there)) [ ]
  ]
  | inr other ↦ elim (none≢some (rw other at there)) [ ]
]

recompile_committed-Announced_example :
    Announced (recompile_committed format (store true) "shop" ("prod" ∷ "dev" ∷ []) published)
recompile_committed-Announced_example =
    recompile_committed-Announced format (store true) "shop" ("prod" ∷ "dev" ∷ []) 3 published
      (omega arith) published_versions (unfold cached in ((old, refl, omega arith), tt))

abbrev shop_prod : SdkKeyScope
shop_prod = record { project_key = "shop"; environment_key = "prod" }

recompile_committed-frame_of_example :
    All
      (Reached
        (recompile_committed format (store true) "shop" ("prod" ∷ "dev" ∷ []) published).cache
        shop_prod)
      (recompile_committed format (store true) "shop" ("prod" ∷ "dev" ∷ []) published).events
recompile_committed-frame_of_example =
    recompile_committed-frame_of format (store true) "shop" ("prod" ∷ "dev" ∷ []) 3 published
      shop_prod (omega arith) published_versions (unfold cached in ((old, refl, omega arith), tt))
