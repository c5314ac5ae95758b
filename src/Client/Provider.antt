-- ===== src/Client/Provider.antt =====
-- crates/flaps-client/src: the provider's status (provider.rs) and what it reports of its synchronisation (status.rs). The time
-- that has passed since an instant is an argument, in nanoseconds.
pub mod Errors
pub mod Context
pub mod Resolving
pub mod Readiness
pub mod Freshness
use flaps.Prelude.{ℕ, Bool, true, false, ◌||◌, Option, none, some, ltb, if◌then◌else◌}
use flaps.Numbers.{Numbers}
use flaps.Client.Sync.{SyncState, ProviderShared}

-- `ProviderStatus` of the crate `open_feature`.
pub data ProviderStatus : Type 0 where
  ready not_ready stale : ProviderStatus

pub record SyncStatus (Instant : Type 0) : Type 0 where
  pub version : Option ℕ
  pub last_successful_sync : Option Instant
  pub ruleset_age : Option ℕ

module _ {Instant : Type 0} (elapsed : Instant → ℕ) where
  unfoldable pub age_of : Option Instant → Option ℕ
  age_of none = none
  age_of (some t) = some (elapsed t)

  unfoldable pub from_state : SyncState Instant → SyncStatus Instant
  unfolding age_of
  from_state state = record {
    version = state.version;
    last_successful_sync = state.last_successful_sync;
    ruleset_age = age_of state.last_successful_sync;
  }

  unfoldable pub too_old : ℕ → Option Instant → Bool
  too_old threshold none = true
  too_old threshold (some t) = ltb threshold (elapsed t)

  unfoldable pub is_stale : ℕ → SyncState Instant → Bool
  unfolding too_old
  is_stale threshold state =
      state.loaded_from_snapshot || too_old threshold state.last_successful_sync

  unfoldable pub status_of : Option ℕ → SyncState Instant → ProviderStatus
  unfolding is_stale
  status_of none state = ready
  status_of (some threshold) state = if is_stale threshold state then stale else ready

  unfoldable pub loaded_status :
      {A : Type 0} → Option ℕ → Option A → SyncState Instant → ProviderStatus
  unfolding status_of
  loaded_status threshold none state = not_ready
  loaded_status threshold (some set) state = status_of threshold state

  unfoldable pub status : ⦃num : Numbers⦄ → Option ℕ → ProviderShared Instant → ProviderStatus
  unfolding loaded_status
  status threshold shared = loaded_status threshold shared.flag_set shared.sync_state
