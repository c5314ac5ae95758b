-- ===== src/Client/Supervisor.antt =====
-- crates/flaps-client/src/supervisor.rs: the loop of the background task as a machine whose steps are what `select!` can take.
pub mod Polls
pub mod Runs
use flaps.Prelude.{ℕ, String, Bool, true, false, Option, none, some, List, [], ◌∷◌}
use flaps.Numbers.{Numbers}
use flaps.Eval.Coerce.{JsonValue}
use flaps.Client.Backoff.{JitterFn, Backoff, next_delay, reset}
use flaps.Client.Sse.{SseNotification, SseFormat, SseDecoder, push}
use flaps.Client.Sse
use flaps.Client.Sync.{Response, Write, Client, fetch_and_store}

-- Where the loop waits: for the stream to open, for a chunk of it, or for the delay to pass.
pub data Phase : Type 0 where
  connecting : Phase
  listening : SseDecoder → Phase
  waiting : ℕ → Phase

-- What ends a wait: the answer to the request for the stream, what comes of the stream, the poll's tick, the end of the delay.
pub data Event : Type 0 where
  opened refused failed ended tick slept : Event
  chunk : List ℕ → Event

-- What a fetch at this moment meets.
pub record Moment (Instant : Type 0) : Type 0 where
  pub now : Instant
  pub path : Option Write
  pub server : Option String → Option Response

module _ ⦃num : Numbers⦄ where
  pub record Supervisor (Instant : Type 0) (jitter : JitterFn) : Type 0 where
    pub client : Client Instant
    pub backoff : Backoff jitter
    pub phase : Phase

  unfoldable pub back_off :
      {Instant : Type 0} {jitter : JitterFn} → Supervisor Instant jitter → Supervisor Instant jitter
  back_off s = record s {
    backoff = (next_delay s.backoff).1;
    phase = waiting (next_delay s.backoff).0;
  }

  module _ {Instant : Type 0} (parse : String → Option JsonValue) where
    unfoldable pub fetched : Moment Instant → Client Instant → Client Instant
    fetched at c = (fetch_and_store parse at.now at.path at.server c).1

    -- One fetch for all notifications of a chunk.
    unfoldable pub fetch_if_any :
        Moment Instant → List SseNotification → Client Instant → Client Instant
    unfolding fetched
    fetch_if_any at [] c = c
    fetch_if_any at (n ∷ notifs) c = fetched at c

    -- The fetch before the loop; the first tick of the interval fires at once and is skipped.
    unfoldable pub started :
        {jitter : JitterFn}
        → Moment Instant
        → Client Instant
        → Backoff jitter
        → Supervisor Instant jitter
    unfolding fetched
    started at c backoff = record { client = fetched at c; backoff = backoff; phase = connecting }

  module _ {Instant : Type 0} {jitter : JitterFn} (parse : String → Option JsonValue)
      (format : SseFormat) where
    -- `none` is an event that the loop does not wait for in this phase.
    unfoldable pub step_in :
        Moment Instant
        → Phase
        → Event
        → Supervisor Instant jitter
        → Option (Supervisor Instant jitter)
    unfolding fetched fetch_if_any back_off
    step_in at connecting opened s = some (record {
      client = fetched parse at s.client;
      backoff = reset s.backoff;
      phase = listening Sse.new;
    })
    step_in at connecting refused s = some (back_off s)
    step_in at (listening decoder) (chunk bytes) s = some (record s {
      client = fetch_if_any parse at (push format bytes decoder).0 s.client;
      phase = listening (push format bytes decoder).1;
    })
    step_in at (listening decoder) failed s = some (back_off s)
    step_in at (listening decoder) ended s = some (back_off s)
    step_in at (listening decoder) tick s = some (record s { client = fetched parse at s.client })
    step_in at (waiting delay) tick s = some (record s { client = fetched parse at s.client })
    step_in at (waiting delay) slept s = some (record s { phase = connecting })
    step_in at phase event s = none

    unfoldable pub step :
        Moment Instant → Event → Supervisor Instant jitter → Option (Supervisor Instant jitter)
    unfolding step_in
    step at event s = step_in at s.phase event s
