-- ===== src/Server/SseQuota/Sequential.antt =====
-- `try_acquire` and the drop of a guard as whole calls, and as runs of the single steps.
use flaps.Prelude.{ℕ, ◌≡◌, refl, String, Option, none, some, List, [], ◌∷◌, ◌++◌, Result, ok, err}
use flaps.Server.SseQuota.{
  SseQuota, SseQuotaError, SseSubscriptionGuard, permits, try_acquire_owned, try_acquire,
  with_global, with_key, drop_guard, ensure_key, set_permits, release_global, count_closed,
  count_rejected,
}
use flaps.Server.SseQuota.Threads.{
  reserved, found, refused, unwinding, admitted, live, closing, closing_key, Thread, System, arrive,
  turn_away, go_on, Reach, here, next, advance, take_key, moved,
}

-- The stream of an admitted request.
abbrev pub stream_of : Result SseQuotaError SseSubscriptionGuard → List Thread
stream_of (err e) = []
stream_of (ok guard) = record { phase = live; key = guard.key } ∷ []

-- The state after a call.
abbrev pub called : String → System → System
called key s = record {
  quota = (try_acquire key s.quota).1;
  threads = stream_of (try_acquire key s.quota).0 ++ s.threads;
}

go_first :
    (s : System) (q : SseQuota) (thread : Thread) (others : List Thread)
    → Reach s (record { quota = q; threads = thread ∷ others })
    → Reach s (record {
      quota = (advance thread.phase thread.key q).1;
      threads = moved (advance thread.phase thread.key q).0 thread.key ++ others;
    })
go_first s q thread others before = next before (go_on [] others thread refl refl)

with_key-Reach :
    (s : System) (key : String) (others : List Thread) (q : SseQuota) (free : Option ℕ)
    → try_acquire_owned (permits key q) ≡ free
    → Reach s (record { quota = q; threads = record { phase = found; key = key } ∷ others })
    → Reach s (record {
      quota = (with_key key free q).1;
      threads = stream_of (with_key key free q).0 ++ others;
    })
unfolding with_key advance take_key moved
with_key-Reach s key others q none e before =
    let turned = rw e at (go_first s q (record { phase = found; key = key }) others before) in
    go_first s (count_rejected q) (record { phase = unwinding; key = key }) others
      (go_first s q (record { phase = refused; key = key }) others turned)
with_key-Reach s key others q (some left) e before =
    let taken = rw e at (go_first s q (record { phase = found; key = key }) others before) in
    go_first s (set_permits key left q) (record { phase = admitted; key = key }) others taken

with_global-Reach :
    (s : System) (key : String) (free : Option ℕ)
    → try_acquire_owned s.quota.global ≡ free
    → Reach s (record {
      quota = (with_global key free s.quota).1;
      threads = stream_of (with_global key free s.quota).0 ++ s.threads;
    })
unfolding with_global advance moved
with_global-Reach s key none e = next here (turn_away e refl)
with_global-Reach s key (some left) e =
    with_key-Reach s key s.threads entered (try_acquire_owned (permits key entered)) refl (
      go_first s (record s.quota { global = left }) (record { phase = reserved; key = key })
        s.threads (next here (arrive key left e refl)))
  where
    entered : SseQuota
    entered = ensure_key key (record s.quota { global = left })

-- A call of `try_acquire` is a run of the single steps: the state after it, with the stream it admits if it admits
-- one, can be reached from the state before it.
pub try_acquire-Reach : (key : String) (s : System) → Reach s (called key s)
unfolding try_acquire
try_acquire-Reach key s = with_global-Reach s key (try_acquire_owned s.quota.global) refl

-- So is the drop of a guard: where the first request of a state is streaming, the state that `drop_guard` gives
-- without it can be reached.
pub drop_guard-Reach :
    (guard : SseSubscriptionGuard) (q : SseQuota) (others : List Thread)
    → Reach
        (record { quota = q; threads = record { phase = live; key = guard.key } ∷ others })
        (record { quota = drop_guard guard q; threads = others })
unfolding drop_guard advance moved
drop_guard-Reach guard q others =
    go_first first (release_global (count_closed q))
      (record { phase = closing_key; key = guard.key }) others
      (go_first first (count_closed q) (record { phase = closing; key = guard.key }) others
        (go_first first q (record { phase = live; key = guard.key }) others here))
  where
    first : System
    first = record { quota = q; threads = record { phase = live; key = guard.key } ∷ others }

-- One run and another after it.
pub Reach-trans : {s t u : System} → Reach s t → Reach t u → Reach s u
Reach-trans first here = first
Reach-trans first (next more step) = next (Reach-trans first more) step
