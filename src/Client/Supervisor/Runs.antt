-- ===== src/Client/Supervisor/Runs.antt =====
-- What holds in every run of the background task.
use flaps.Prelude.{
  ℕ, ◌<◌, ◌≡◌, refl, subst, String, true, Option, none, some, List, [], ◌∷◌, inl, inr, ◌⊎◌,
}
use mathlib.Core.Option.{some-injective}
use flaps.Numbers.{Numbers}
use flaps.Eval.Coerce.{JsonValue}
use flaps.Client.Backoff.{JitterFn, Backoff, next_delay, reset}
use flaps.Client.Backoff.Bounds.{next_delay-lt}
use flaps.Client.Sse.{SseNotification, SseFormat, push}
use flaps.Client.Sync.{SnapshotFile, renamed, Client, initialize}
use flaps.Client.Sync.Kept.{Restores, fetch_and_store-Restores}
use flaps.Client.Supervisor.{
  Phase, connecting, listening, waiting, Event, opened, refused, failed, ended, tick, slept, chunk,
  Moment, Supervisor, back_off, fetched, fetch_if_any, started, step_in, step,
}

-- How long a phase waits.
abbrev Bounded : ℕ → Phase → Type 0
Bounded max connecting = Unit
Bounded max (listening decoder) = Unit
Bounded max (waiting delay) = (delay ≡ 0) ⊎ (delay < max)

abbrev Every : {A : Type 0} → (A → Type 0) → Option A → Type 0
Every P none = Unit
Every P (some a) = P a

Every-some :
    {A : Type 0} (P : A → Type 0) (found : Option A) (a : A) → Every P found → found ≡ some a → P a
Every-some P none a holds same = cc
Every-some P (some x) a holds same = subst P (some-injective _ _ same) holds

module _ ⦃num : Numbers⦄ {Instant : Type 0} (parse : String → Option JsonValue) where
  fetched-Restores :
      (at : Moment Instant)
      → at.path ≡ some renamed
      → (c : Client Instant) → Restores parse c
      → Restores parse (fetched parse at c)
  unfolding fetched
  fetched-Restores at went c kept = rw went (fetch_and_store-Restores parse at.now at.server c kept)

  any-Restores :
      (at : Moment Instant)
      → at.path ≡ some renamed
      → (notifs : List SseNotification) (c : Client Instant) → Restores parse c
      → Restores parse (fetch_if_any parse at notifs c)
  unfolding fetch_if_any
  any-Restores at went [] c kept = kept
  any-Restores at went (n ∷ notifs) c kept = fetched-Restores at went c kept

module _ ⦃num : Numbers⦄ {Instant : Type 0} {jitter : JitterFn} (parse : String → Option JsonValue)
    (format : SseFormat) where
  -- The runs of the task from a client and a backoff, in which every write of the snapshot goes well.
  pub data Reach (c : Client Instant) (b : Backoff jitter)
      : Supervisor Instant jitter → Type 0 where
    start : (at : Moment Instant) → at.path ≡ some renamed → Reach c b (started parse at c b)
    then_step :
        {s next : Supervisor Instant jitter} (at : Moment Instant) (event : Event)
        → at.path ≡ some renamed
        → Reach c b s
        → step parse format at event s ≡ some next
        → Reach c b next

  -- The snapshot restores what the client holds, and the delays stay below the configured maximum.
  unfoldable pub Steady : Backoff jitter → Supervisor Instant jitter → Type 0
  Steady b s = Restores parse s.client × Bounded b.max s.phase × (s.backoff.max ≡ b.max)

  back_off-Steady :
      (b : Backoff jitter) (s : Supervisor Instant jitter) → Steady b s → Steady b (back_off s)
  unfolding Steady back_off next_delay
  back_off-Steady b s (kept, short, limit) = elim (next_delay-lt s.backoff) [
    | inl nothing ↦ (kept, inl nothing, limit)
    | inr (_, below) ↦ (kept, inr (subst (λ m. (next_delay s.backoff).0 < m) limit below), limit)
  ]

  step_in-Steady :
      (b : Backoff jitter) (at : Moment Instant)
      → at.path ≡ some renamed
      → (phase : Phase) (event : Event) (s : Supervisor Instant jitter) → s.phase ≡ phase
      → Steady b s
      → Every (Steady b) (step_in parse format at phase event s)
  unfolding step_in Steady reset
  step_in-Steady b at went connecting opened s same (kept, short, limit) =
      (fetched-Restores parse at went s.client kept, tt, limit)
  step_in-Steady b at went connecting refused s same (kept, short, limit) =
      back_off-Steady b s (kept, short, limit)
  step_in-Steady b at went connecting failed s same steady = tt
  step_in-Steady b at went connecting ended s same steady = tt
  step_in-Steady b at went connecting tick s same steady = tt
  step_in-Steady b at went connecting slept s same steady = tt
  step_in-Steady b at went connecting (chunk bytes) s same steady = tt
  step_in-Steady b at went (listening decoder) opened s same steady = tt
  step_in-Steady b at went (listening decoder) refused s same steady = tt
  step_in-Steady b at went (listening decoder) failed s same (kept, short, limit) =
      back_off-Steady b s (kept, short, limit)
  step_in-Steady b at went (listening decoder) ended s same (kept, short, limit) =
      back_off-Steady b s (kept, short, limit)
  step_in-Steady b at went (listening decoder) tick s same (kept, short, limit) =
      (fetched-Restores parse at went s.client kept, short, limit)
  step_in-Steady b at went (listening decoder) slept s same steady = tt
  step_in-Steady b at went (listening decoder) (chunk bytes) s same (kept, short, limit) =
      (any-Restores parse at went (push format bytes decoder).0 s.client kept, tt, limit)
  step_in-Steady b at went (waiting delay) opened s same steady = tt
  step_in-Steady b at went (waiting delay) refused s same steady = tt
  step_in-Steady b at went (waiting delay) failed s same steady = tt
  step_in-Steady b at went (waiting delay) ended s same steady = tt
  step_in-Steady b at went (waiting delay) tick s same (kept, short, limit) =
      (fetched-Restores parse at went s.client kept, short, limit)
  step_in-Steady b at went (waiting delay) slept s same (kept, short, limit) = (kept, tt, limit)
  step_in-Steady b at went (waiting delay) (chunk bytes) s same steady = tt

  Reach-kept :
      (c : Client Instant) (b : Backoff jitter) (s : Supervisor Instant jitter)
      → Restores parse c
      → Reach c b s
      → Steady b s
  unfolding Steady started step
  Reach-kept c b s kept (start at went) = (fetched-Restores parse at went c kept, tt, refl)
  Reach-kept c b next kept (then_step {s} at event went reach took) =
      Every-some (Steady b) (step parse format at event s) next
        (step_in-Steady b at went s.phase event s refl (Reach-kept c b s kept reach)) took

  -- In every run of the background task of a provider that starts with a snapshot path, whatever the file, the stream and the
  -- server give and in whatever order, where every write of the snapshot goes well: the snapshot on disk, loaded into a fresh
  -- provider, gives the flags and the version that the client holds, and a wait before a new attempt is zero or shorter than the
  -- maximum of the backoff.
  pub Reach-Steady :
      (file : Option SnapshotFile) (b : Backoff jitter) (s : Supervisor Instant jitter)
      → Reach (initialize parse true file) b s
      → Steady b s
  unfolding Restores initialize
  Reach-Steady file b s reach = Reach-kept (initialize parse true file) b s (refl, refl) reach
