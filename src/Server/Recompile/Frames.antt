-- ===== src/Server/Recompile/Frames.antt =====
-- What a stream of `get_events` (crates/flaps-server/src/sync.rs) shows of the events that recompilations send.
use flaps.Prelude.{
  ℕ, ◌+◌, ◌^◌, ◌<◌, ◌≤◌, ◌≡◌, refl, sym, ap, ◌∙◌, subst, String, Bool, true, false, ◌||◌, not, some,
  none≢some, List, length, ◌==◌, eq_iff, Bool-cases, inl, inr, All,
}
use mathlib.Core.Option.{some-injective}
use flaps.Numbers.{Numbers}
use flaps.Compiler.Environment.{CompiledRuleset, TextFormat}
use flaps.Domain.SdkKey.{SdkKeyScope}
use flaps.Server.Sync.{CompiledCache, SyncEvent, EventPayload, cached, frame_of}
use flaps.Server.Recompile.{Reads}
use flaps.Server.Recompile.Cache.{Published, recompile_committed}
use flaps.Server.Recompile.Announced.{
  Current, Announced, VersionsUpTo, All-map, recompile_committed-Announced,
}

either_true : (a b : Bool) → (not a || not b) ≡ false → (a ≡ true) × (b ≡ true)
either_true true true h = (refl, refl)
either_true true false h = cc
either_true false b h = cc

frame_of-some :
    (scope : SdkKeyScope) (event : SyncEvent) (frame : EventPayload)
    → frame_of scope (some event) ≡ some frame
    → (event.project ≡ scope.project_key)
      × (event.environment ≡ scope.environment_key)
      × (frame ≡ record { environment = event.environment; version = event.version })
unfolding frame_of
frame_of-some scope event frame h =
    elim (Bool-cases (
      not (event.project == scope.project_key)
      || not (event.environment == scope.environment_key))) [
        | inl other ↦ elim (none≢some (rw other at h)) [ ]
        | inr same ↦
            let (project, environment) = either_true _ _ same in
            (
              (eq_iff event.project scope.project_key).0 project,
              (eq_iff event.environment scope.environment_key).0 environment,
              sym (some-injective _ _ (rw same at h)),
            )
      ]

-- Every frame that a stream of a scope makes of an event names the scope's environment, and its version has been reached by the
-- cache entry that the scope downloads.
abbrev pub Reached : CompiledCache → SdkKeyScope → SyncEvent → Type 0
Reached cache scope event =
    (frame : EventPayload)
    → frame_of scope (some event) ≡ some frame
    → (frame.environment ≡ scope.environment_key)
      × ((entry : CompiledRuleset) × (cached scope.project_key scope.environment_key cache
            ≡ some entry)
          × (frame.version ≤ entry.version))

Current-Reached :
    (cache : CompiledCache) (scope : SdkKeyScope) (event : SyncEvent)
    → Current cache event
    → Reached cache scope event
Current-Reached cache scope event (entry, there, old) frame shown =
    let (project, environment, same) = frame_of-some scope event frame shown in
    (
      ap (λ f. f.environment) same ∙ environment,
      (
        entry,
        ap (λ p. cached p scope.environment_key cache) (sym project)
            ∙ ap (λ e. cached event.project e cache) (sym environment)
            ∙ there,
        subst (λ f. f.version ≤ entry.version) (sym same) old,
      ),
    )

module _ ⦃num : Numbers⦄ (format : TextFormat) (reads : Reads) (project : String) where
  -- After the recompilations of a commit, whatever the store answers, every frame that a stream of any key's scope makes of an event
  -- sent so far names the environment of that scope, and the entry that the scope then downloads is of the frame's version or a later
  -- one: where before them every event sent announced its cache entry's version or an earlier one, and no version is above a number
  -- that leaves room below 2 ^ 64 for the recompilations.
  pub recompile_committed-frame_of :
      (affected : List String) (n : ℕ) (s : Published) (scope : SdkKeyScope)
      → n + length affected < 2 ^ 64
      → VersionsUpTo n s.cache
      → Announced s
      → All
          (Reached (recompile_committed format reads project affected s).cache scope)
          (recompile_committed format reads project affected s).events
  recompile_committed-frame_of affected n s scope fits versions announced =
      let after = recompile_committed format reads project affected s in
      All-map (Current after.cache) (Reached after.cache scope) after.events
        (Current-Reached after.cache scope)
        (recompile_committed-Announced format reads project affected n s fits versions announced)
