-- ===== src/Server/SseQuota/Threads.antt =====
-- The steps of the requests that share a quota, one atomic access at a time, in any order. `try_acquire` and the
-- drop of a guard are runs of these steps.
use flaps.Prelude.{ℕ, ◌≡◌, String, Option, none, some, List, [], ◌∷◌, ◌++◌}
use flaps.Server.SseQuota.{
  SseQuota, SseQuotaConfig, new, try_acquire_owned, permits, ensure_key, set_permits,
  count_rejected, count_active, count_closed, release_global, release_key,
}

-- Where a request is: with the global permit, with its key's semaphore, refused, refused and counted, admitted,
-- streaming, closing (uncounted), and closing without the global permit.
pub data Phase : Type 0 where
  reserved found refused unwinding admitted live closing closing_key : Phase

pub record Thread : Type 0 where
  pub phase : Phase
  pub key : String

pub record System : Type 0 where
  pub quota : SseQuota
  pub threads : List Thread

unfoldable pub take_key : String → Option ℕ → SseQuota → Phase × SseQuota
unfolding set_permits
take_key key none q = (refused, q)
take_key key (some left) q = (admitted, set_permits key left q)

-- One access of a request: where it is then, if it goes on.
unfoldable pub advance : Phase → String → SseQuota → Option Phase × SseQuota
unfolding take_key ensure_key try_acquire_owned permits count_rejected release_global count_active
    count_closed release_key
advance reserved key q = (some found, ensure_key key q)
advance found key q =
    let (phase, next) = take_key key (try_acquire_owned (permits key q)) q in (some phase, next)
advance refused key q = (some unwinding, count_rejected q)
advance unwinding key q = (none, release_global q)
advance admitted key q = (some live, count_active q)
advance live key q = (some closing, count_closed q)
advance closing key q = (some closing_key, release_global q)
advance closing_key key q = (none, release_key key q)

unfoldable pub moved : Option Phase → String → List Thread
moved none key = []
moved (some phase) key = record { phase = phase; key = key } ∷ []

-- A request arrives and takes the global permit or is refused, or one that is there goes on.
pub data Step (s t : System) : Type 0 where
  arrive :
      (key : String) (left : ℕ)
      → try_acquire_owned s.quota.global ≡ some left
      → t ≡ record {
        quota = record s.quota { global = left };
        threads = record { phase = reserved; key = key } ∷ s.threads;
      }
      → Step s t
  turn_away :
      try_acquire_owned s.quota.global ≡ none
      → t ≡ record { quota = count_rejected s.quota; threads = s.threads }
      → Step s t
  go_on :
      (before after : List Thread) (thread : Thread)
      → s.threads ≡ before ++ (thread ∷ after)
      → t ≡ record {
        quota = (advance thread.phase thread.key s.quota).1;
        threads = before ++ (moved (advance thread.phase thread.key s.quota).0 thread.key ++ after);
      }
      → Step s t

pub data Reach (s : System) : System → Type 0 where
  here : Reach s s
  next : {t u : System} → Reach s t → Step t u → Reach s u

unfoldable pub start : SseQuotaConfig → System
unfolding new
start config = record { quota = new config; threads = [] }
