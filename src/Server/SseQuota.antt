-- ===== src/Server/SseQuota.antt =====
-- crates/flaps-server/src/sse_quota.rs: how many event streams are open, for each SDK key and in all. A semaphore
-- of tokio is the number of its free permits; a permit that is dropped is free again.
pub mod Threads
pub mod Balance
pub mod Reachable
pub mod Sequential
pub mod Calls
use flaps.Prelude.{
  ℕ, zero, suc, ◌+◌, ◌-◌, ◌%◌, ◌^◌, String, Option, none, some, List, [], ◌∷◌, Result, ok, err,
}
use flaps.Prelude.Map
use flaps.Prelude.Map.{BTreeMap}

pub record SseQuotaConfig : Type 0 where
  pub max_global : ℕ
  pub max_per_key : ℕ

pub data SseQuotaError : Type 0 where
  global_limit_reached per_key_limit_reached : SseQuotaError

pub record SseQuota : Type 0 where
  pub global : ℕ
  pub per_key : BTreeMap ℕ
  pub max_global : ℕ
  pub max_per_key : ℕ
  pub active_subscriptions : ℕ
  pub rejected_subscriptions : ℕ

-- The permits of one stream: one of all, and one of the key's.
pub record SseSubscriptionGuard : Type 0 where
  pub key : String

unfoldable pub new : SseQuotaConfig → SseQuota
new config = record {
  global = config.max_global;
  per_key = [];
  max_global = config.max_global;
  max_per_key = config.max_per_key;
  active_subscriptions = 0;
  rejected_subscriptions = 0;
}

-- `try_acquire_owned` on a semaphore: what is left.
unfoldable pub try_acquire_owned : ℕ → Option ℕ
try_acquire_owned zero = none
try_acquire_owned (suc n) = some n

unfoldable pub permits_or : ℕ → Option ℕ → ℕ
permits_or n none = n
permits_or n (some m) = m

-- The free permits of a key: all of them, as long as it has no semaphore.
unfoldable pub permits : String → SseQuota → ℕ
unfolding permits_or
permits key q = permits_or q.max_per_key (Map.get key q.per_key)

unfoldable pub set_permits : String → ℕ → SseQuota → SseQuota
set_permits key n q = record q { per_key = Map.insert key n q.per_key }

-- `entry(key).or_insert_with(..)`
unfoldable pub ensure_key : String → SseQuota → SseQuota
unfolding permits set_permits
ensure_key key q = set_permits key (permits key q) q

unfoldable pub count_rejected : SseQuota → SseQuota
count_rejected q = record q { rejected_subscriptions = (q.rejected_subscriptions + 1) % 2 ^ 64 }

unfoldable pub count_active : SseQuota → SseQuota
count_active q = record q { active_subscriptions = (q.active_subscriptions + 1) % 2 ^ 64 }

-- `fetch_sub(1)`, which wraps around.
unfoldable pub count_closed : SseQuota → SseQuota
count_closed q = record q {
  active_subscriptions = (q.active_subscriptions + (2 ^ 64 - 1)) % 2 ^ 64;
}

unfoldable pub release_global : SseQuota → SseQuota
release_global q = record q { global = q.global + 1 }

unfoldable pub release_key : String → SseQuota → SseQuota
unfolding permits set_permits
release_key key q = set_permits key (permits key q + 1) q

unfoldable pub with_key :
    String → Option ℕ → SseQuota → Result SseQuotaError SseSubscriptionGuard × SseQuota
unfolding set_permits count_active count_rejected release_global
with_key key none q = (err per_key_limit_reached, release_global (count_rejected q))
with_key key (some left) q = (ok (record { key = key }), count_active (set_permits key left q))

unfoldable pub with_global :
    String → Option ℕ → SseQuota → Result SseQuotaError SseSubscriptionGuard × SseQuota
unfolding with_key ensure_key permits try_acquire_owned count_rejected
with_global key none q = (err global_limit_reached, count_rejected q)
with_global key (some left) q =
    let found = ensure_key key (record q { global = left }) in
    with_key key (try_acquire_owned (permits key found)) found

-- The global permit first, and then that of the key.
unfoldable pub try_acquire :
    String → SseQuota → Result SseQuotaError SseSubscriptionGuard × SseQuota
unfolding with_global try_acquire_owned
try_acquire key q = with_global key (try_acquire_owned q.global) q

-- `Drop`: the counter, and then the permits in the order of the fields.
unfoldable pub drop_guard : SseSubscriptionGuard → SseQuota → SseQuota
unfolding count_closed release_global release_key
drop_guard guard q = release_key guard.key (release_global (count_closed q))

unfoldable pub held_of : ℕ → Option ℕ → ℕ
held_of max none = 0
held_of max (some free) = max - free

unfoldable pub active_subscriptions_for_key : String → SseQuota → ℕ
unfolding held_of
active_subscriptions_for_key key q = held_of q.max_per_key (Map.get key q.per_key)
