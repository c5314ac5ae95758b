-- ===== src/Client/Provider/Freshness.antt =====
-- What the status says of the fetches.
use flaps.Prelude.{
  ℕ, ◌≤◌, ◌≡◌, refl, ap, ◌∙◌, String, Bool, true, false, Option, none, some, Result, ok, err, ltb,
  Bool-cases, inl, inr, if◌then◌else◌, arith,
}
use flaps.Numbers.{Numbers}
use flaps.Eval.Coerce.{JsonValue}
use flaps.Eval.Model.{FlagSetOf}
use flaps.Eval.Parse.Errors.{ParseError}
use flaps.Eval.Parse.Document.{from_json}
use flaps.Client.Sync.{
  Response, Write, SnapshotFile, SyncState, Client, new, confirmed, store_parsed, fetch_and_store,
  load_snapshot, load_parsed, initialize,
}
use flaps.Client.Sync.Kept.{
  Fetched, unfetched, unchanged, stored, fetch_and_store-Fetched, Fetched-flag_set,
  fetch_and_store-false,
}
use flaps.Client.Provider.{ready, stale, status, loaded_status, status_of, is_stale, too_old}

module _ {Instant : Type 0} (elapsed : Instant → ℕ) where
  recent :
      (threshold : ℕ) (now : Instant) (state : SyncState Instant)
      → elapsed now ≤ threshold
      → state.loaded_from_snapshot ≡ false
      → state.last_successful_sync ≡ some now
      → status_of elapsed (some threshold) state ≡ ready
  unfolding status_of is_stale too_old
  recent threshold now state young unloaded synced =
      rw (unloaded, ap (too_old elapsed threshold) synced ∙ not_old) refl
    where
      not_old : ltb threshold (elapsed now) ≡ false
      not_old = ground (arith, young)

module _ ⦃num : Numbers⦄ {Instant : Type 0} (parse : String → Option JsonValue)
    (elapsed : Instant → ℕ) where
  Fetched-synced :
      (now : Instant) (path : Option Write) (c : Client Instant) (result : Bool × Client Instant)
      → Fetched parse now path c result
      → result.0 ≡ true
      → (result.1.shared.sync_state.loaded_from_snapshot ≡ false)
        × (result.1.shared.sync_state.last_successful_sync ≡ some now)
  unfolding store_parsed confirmed
  Fetched-synced now path c result unfetched went = cc
  Fetched-synced now path c result unchanged went = (refl, refl)
  Fetched-synced now path c result (stored response body set parsed) went = (refl, refl)

  fetched_kept :
      (now : Instant) (path : Option Write) (c : Client Instant) (set : FlagSetOf)
      (result : Bool × Client Instant)
      → Fetched parse now path c result
      → c.shared.flag_set ≡ some set
      → (kept : FlagSetOf) × (result.1.shared.flag_set ≡ some kept)
  fetched_kept now path c set result fetched loaded =
      elim (Fetched-flag_set parse now path c result fetched) [
        | inl same ↦ (set, same ∙ loaded)
        | inr (body, new_set, parsed, same) ↦ (new_set, same)
      ]

  Loaded-ready :
      (threshold : ℕ) (now : Instant) (path : Option Write) (c : Client Instant) (set : FlagSetOf)
      (result : Bool × Client Instant)
      → Fetched parse now path c result
      → c.shared.flag_set ≡ some set
      → elapsed now ≤ threshold
      → result.0 ≡ true
      → status elapsed (some threshold) result.1.shared ≡ ready
  unfolding status loaded_status
  Loaded-ready threshold now path c set result fetched loaded young went =
      let (unloaded, synced) = Fetched-synced now path c result fetched went in
      ap (λ x. loaded_status elapsed (some threshold) x result.1.shared.sync_state)
        (fetched_kept now path c set result fetched loaded).1
      ∙ recent elapsed threshold now result.1.shared.sync_state young unloaded synced

  parsed_stale :
      (threshold : ℕ) (file : SnapshotFile) (result : Result ParseError FlagSetOf) (set : FlagSetOf)
      → (load_parsed {Instant = Instant} parse file result new).flag_set ≡ some set
      → status elapsed (some threshold) (load_parsed {Instant = Instant} parse file result new)
        ≡ stale
  unfolding load_parsed new status loaded_status status_of is_stale
  parsed_stale threshold file (err e) set loaded = cc
  parsed_stale threshold file (ok x) set loaded = refl

  initialize-stale :
      (threshold : ℕ) (file : Option SnapshotFile) (set : FlagSetOf)
      → (initialize {Instant = Instant} parse true file).shared.flag_set ≡ some set
      → status elapsed (some threshold) (initialize {Instant = Instant} parse true file).shared
        ≡ stale
  unfolding initialize load_snapshot
  initialize-stale threshold none set loaded = cc
  initialize-stale threshold (some file) set loaded =
      parsed_stale threshold file (from_json parse file.document) set loaded

  -- A provider with a staleness threshold that starts with a snapshot of a document that parses: after its first fetch it is stale
  -- where the fetch reports failure, and ready where it reports success, while the fetch is no older than the threshold.
  pub warm_start-status :
      (threshold : ℕ) (file : Option SnapshotFile) (set : FlagSetOf) (now : Instant)
      (path : Option Write) (server : Option String → Option Response)
      → (initialize {Instant = Instant} parse true file).shared.flag_set ≡ some set
      → elapsed now ≤ threshold
      → let (went, c) = fetch_and_store parse now path server (initialize parse true file) in
        status elapsed (some threshold) c.shared ≡ (if went then ready else stale)
  warm_start-status threshold file set now path server loaded young =
      let start = initialize {Instant = Instant} parse true file in
      elim (Bool-cases (fetch_and_store parse now path server start).0) [
        | inl went ↦ rw went (
            Loaded-ready threshold now path start set (fetch_and_store parse now path server start)
              (fetch_and_store-Fetched parse now path server start) loaded young went)
        | inr failed ↦ rw failed (
            ap (λ c. status elapsed (some threshold) c.shared)
              (fetch_and_store-false parse now path server start failed)
            ∙ initialize-stale threshold file set loaded)
      ]
