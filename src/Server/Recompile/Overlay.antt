-- ===== src/Server/Recompile/Overlay.antt =====
-- A change that is compiled before it is written, and the store after it is written.
use flaps.Prelude.{◌≡◌, String, false, Option, Result, ok, ◌>>=◌, ◌==◌}
use flaps.Numbers.{Numbers}
use flaps.Domain.Records.{Environment}
use flaps.Eval.Model.{Metadata}
use flaps.Server.ApiErrors.{ApiError}
use flaps.Server.Recompile.{StoreResult, Change, delete_flag, read, metadata_or_default}

module _ ⦃num : Numbers⦄ where
  -- A flag that a change leaves in the store.
  abbrev Untouched : Change → String → Type 0
  Untouched (delete_flag key) flag = (flag == key) ≡ false
  Untouched other flag = Unit {0}

  found_metadata : StoreResult (Option Environment) → Result ApiError Metadata
  unfolding read metadata_or_default
  found_metadata found = do environment ← read found; ok (metadata_or_default environment)
