-- ===== src/Client/Supervisor/Polls.antt =====
-- The poll of the background task, which does not depend on the event stream.
use flaps.Prelude.{◌≡◌, ◌≢◌, refl, ap, ◌∙◌, String, true, false, Option, some, ok, eqb}
use flaps.Numbers.{Numbers}
use flaps.Eval.Coerce.{JsonValue}
use flaps.Eval.Model.{FlagSetOf}
use flaps.Eval.Parse.Document.{from_json}
use flaps.Client.Backoff.{JitterFn}
use flaps.Client.Sse.{SseFormat}
use flaps.Client.Sync.{
  Response, Client, fetch_and_store, store_answer, store_body, store_parsed, is_success,
}
use flaps.Client.Supervisor.{
  Phase, connecting, listening, waiting, tick, Moment, Supervisor, fetched, step_in, step,
}

module _ ⦃num : Numbers⦄ {Instant : Type 0} (parse : String → Option JsonValue) where
  fetched-ok :
      (at : Moment Instant) (c : Client Instant) (response : Response) (body : String)
      (set : FlagSetOf)
      → at.server c.shared.sync_state.etag ≡ some response
      → eqb response.status 304 ≡ false
      → is_success response.status ≡ true
      → response.body ≡ some body
      → from_json parse body ≡ ok set
      → (fetched parse at c).shared.flag_set ≡ some set
  unfolding fetched fetch_and_store store_answer store_body store_parsed
  fetched-ok at c response body set answers other success has parses =
      ap (λ a. (store_answer parse at.now at.path a c).1.shared.flag_set) answers
      ∙ rw (other, success)
          (ap (λ b. (store_body parse at.now at.path response b c).1.shared.flag_set) has
            ∙ ap (λ r. (store_parsed parse at.now at.path response body r c).1.shared.flag_set)
                parses)

module _ ⦃num : Numbers⦄ {Instant : Type 0} {jitter : JitterFn} (parse : String → Option JsonValue)
    (format : SseFormat) where
  step_in-tick :
      (at : Moment Instant) (phase : Phase) (s : Supervisor Instant jitter)
      → phase ≢ connecting
      → step_in parse format at phase tick s
        ≡ some (record s { client = fetched parse at s.client })
  unfolding step_in
  step_in-tick at connecting s other = absurd (other refl)
  step_in-tick at (listening decoder) s other = refl
  step_in-tick at (waiting delay) s other = refl

  -- Whenever the task waits, for the stream or for the delay before a new attempt, it takes the poll's tick; where the server then
  -- answers with success and not with 304, with a document that parses, the provider serves that document afterwards, and neither
  -- the wait nor the backoff has changed.
  pub step-tick :
      (at : Moment Instant) (s : Supervisor Instant jitter) (response : Response) (body : String)
      (set : FlagSetOf)
      → s.phase ≢ connecting
      → at.server s.client.shared.sync_state.etag ≡ some response
      → eqb response.status 304 ≡ false
      → is_success response.status ≡ true
      → response.body ≡ some body
      → from_json parse body ≡ ok set
      → (next : Supervisor Instant jitter) × (step parse format at tick s ≡ some next)
        × (next.phase ≡ s.phase)
        × (next.backoff ≡ s.backoff)
        × (next.client.shared.flag_set ≡ some set)
  unfolding step
  step-tick at s response body set other answers stale success has parses = (
    record s { client = fetched parse at s.client },
    step_in-tick at s.phase s other,
    refl,
    refl,
    fetched-ok parse at s.client response body set answers stale success has parses,
  )
