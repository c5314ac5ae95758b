-- ===== src/Client/Sync.antt =====
-- crates/flaps-client/src: a fetch of the ruleset (sync.rs) into what the provider and the supervisor share (shared.rs,
-- status.rs), and the snapshot on disk (snapshot.rs). What the network and the disk answer is an argument.
pub mod Kept
use flaps.Prelude.{
  ℕ, String, Bool, true, false, ◌&&◌, Option, none, some, Result, ok, err, eqb, leb, ltb,
  if◌then◌else◌,
}
use flaps.Prelude.Text.{parse_usize}
use flaps.Numbers.{Numbers}
use flaps.Eval.Coerce.{JsonValue}
use flaps.Eval.Model.{FlagSetOf}
use flaps.Eval.Parse.Errors.{ParseError}
use flaps.Eval.Parse.Document.{from_json}

-- A response: its status, the texts of two headers, and its body where it can be read.
pub record Response : Type 0 where
  pub status : ℕ
  pub version : Option String
  pub etag : Option String
  pub body : Option String

pub record SyncState (Instant : Type 0) : Type 0 where
  pub version : Option ℕ
  pub last_successful_sync : Option Instant
  pub etag : Option String
  pub loaded_from_snapshot : Bool

pub record SnapshotFile : Type 0 where
  pub version : Option ℕ
  pub document : String

-- How writing a snapshot ends.
pub data Write : Type 0 where
  unserialized tmp_unwritten unrenamed renamed : Write

-- The snapshot is written beside its path and renamed: what is at the path is the old one or the new one.
unfoldable pub write_snapshot :
    Write → Option ℕ → String → Option SnapshotFile → Option SnapshotFile
write_snapshot renamed version document before =
    some (record { version = version; document = document })
write_snapshot other version document before = before

unfoldable pub written :
    Option Write → Option ℕ → String → Option SnapshotFile → Option SnapshotFile
unfolding write_snapshot
written none version body before = before
written (some how) version body before = write_snapshot how version body before

unfoldable pub parse_version : Option String → Option ℕ
parse_version none = none
parse_version (some text) = parse_usize text

unfoldable pub is_success : ℕ → Bool
is_success status = leb 200 status && ltb status 300

module _ ⦃num : Numbers⦄ where
  pub record ProviderShared (Instant : Type 0) : Type 0 where
    pub flag_set : Option FlagSetOf
    pub sync_state : SyncState Instant

  -- What a provider shares, and the file at its snapshot path.
  pub record Client (Instant : Type 0) : Type 0 where
    pub shared : ProviderShared Instant
    pub snapshot : Option SnapshotFile

  module _ {Instant : Type 0} where
    unfoldable pub new : ProviderShared Instant
    new = record {
      flag_set = none;
      sync_state = record {
        version = none;
        last_successful_sync = none;
        etag = none;
        loaded_from_snapshot = false;
      };
    }

    unfoldable pub confirmed : Instant → Client Instant → Client Instant
    confirmed now c = record c {
      shared = record c.shared {
        sync_state = record c.shared.sync_state {
          last_successful_sync = some now;
          loaded_from_snapshot = false;
        };
      };
    }

  module _ {Instant : Type 0} (parse : String → Option JsonValue) where
    unfoldable pub store_parsed :
        Instant
        → Option Write
        → Response
        → String
        → Result ParseError FlagSetOf
        → Client Instant
        → Bool × Client Instant
    unfolding parse_version written
    store_parsed now path response body (err e) c = (false, c)
    store_parsed now path response body (ok set) c = (
      true,
      record {
        shared = record {
          flag_set = some set;
          sync_state = record {
            version = parse_version response.version;
            last_successful_sync = some now;
            etag = response.etag;
            loaded_from_snapshot = false;
          };
        };
        snapshot = written path (parse_version response.version) body c.snapshot;
      },
    )

    unfoldable pub store_body :
        Instant → Option Write → Response → Option String → Client Instant → Bool × Client Instant
    unfolding store_parsed from_json
    store_body now path response none c = (false, c)
    store_body now path response (some body) c =
        store_parsed now path response body (from_json parse body) c

    unfoldable pub store_answer :
        Instant → Option Write → Option Response → Client Instant → Bool × Client Instant
    unfolding store_body confirmed is_success
    store_answer now path none c = (false, c)
    store_answer now path (some response) c =
        let stored = store_body now path response response.body c in
        if eqb response.status 304
        then (true, confirmed now c)
        else if is_success response.status
        then stored
        else (false, c)

    -- The server answers a request that carries the stored tag, `none` where the request fails; a path is there or not, with
    -- how a write at it ends.
    unfoldable pub fetch_and_store :
        Instant
        → Option Write
        → (Option String → Option Response)
        → Client Instant
        → Bool × Client Instant
    unfolding store_answer
    fetch_and_store now path server c = store_answer now path (server c.shared.sync_state.etag) c

    unfoldable pub load_parsed :
        SnapshotFile → Result ParseError FlagSetOf → ProviderShared Instant → ProviderShared Instant
    load_parsed file (err e) shared = shared
    load_parsed file (ok set) shared = record {
      flag_set = some set;
      sync_state = record shared.sync_state { version = file.version; loaded_from_snapshot = true };
    }

    -- `none` is a file that cannot be read as a snapshot.
    unfoldable pub load_snapshot :
        Option SnapshotFile → ProviderShared Instant → ProviderShared Instant
    unfolding load_parsed from_json
    load_snapshot none shared = shared
    load_snapshot (some file) shared = load_parsed file (from_json parse file.document) shared

    -- `initialize` of the provider, before its task starts: a warm start where a path is configured.
    unfoldable pub initialize : Bool → Option SnapshotFile → Client Instant
    unfolding load_snapshot new
    initialize false file = record { shared = new; snapshot = file }
    initialize true file = record { shared = load_snapshot file new; snapshot = file }
