-- ===== src/Examples/Clients.antt =====
-- The client of the provider at concrete inputs: delays, event streams, fetches and a run of the background task.
use Prim.Native.Char.{Char}
use flaps.Prelude.{
  err, ◌↔◌, ℕ, ◌+◌, ◌*◌, ◌%◌, ◌^◌, ◌<◌, ◌≤◌, ◌≡◌, refl, String, Bool, true, false, Option, none,
  some, List, [], ◌∷◌, ◌++◌, map, ok, ◌⊎◌, eqb, if◌then◌else◌, arith,
}
use flaps.Json.{object, end, field}
use flaps.Eval.Coerce.{JsonValue}
use flaps.Eval.Model.{FlagSetOf}
use flaps.Eval.Parse.Document.{from_json, flag_set}
use flaps.Client.Backoff
use flaps.Client.Backoff.{Backoff, xorshift_jitter, next_delay, ceil_nanos, smaller}
use flaps.Client.Backoff.Bounds.{next_delay-lt}
use flaps.Client.Sse
use flaps.Client.Sse.{SseFormat, SseNotification, SseDecoder, push, push_text}
use flaps.Client.Sse.Chunks.{push-append, after}
use flaps.Client.Sse.Frames.{frame, push_text-frame}
use flaps.Client.Sync.{
  Response, Client, SnapshotFile, initialize, load_snapshot, load_parsed, fetch_and_store, renamed,
  is_success,
}
use flaps.Client.Sync.Kept.{fetch_and_store-false}
use flaps.Client.Provider.{status, ready, not_ready, stale}
use flaps.Client.Provider.Freshness.{warm_start-status}
use flaps.Client.Supervisor.{Moment, Supervisor, refused, tick, step, step_in, started, back_off}
use flaps.Client.Supervisor.Polls.{step-tick}
use flaps.Client.Supervisor.Runs.{Reach, Steady, Reach-Steady}
use flaps.Prelude.Int.{pos, negsuc}
use flaps.Client.Provider.Errors.{provider_not_ready}
use flaps.Client.Provider.Context.{OpenFeatureContext, FieldValue}
use flaps.Client.Provider.Resolving.{Integers, resolve_value, to_bool}
use flaps.Client.Provider.Readiness.{resolve_value-status}
use flaps.Examples.Stubs.{integers, plain_versions}

-- A second that doubles up to half a minute.
abbrev delays : Backoff xorshift_jitter
delays = Backoff.new 1000000000 30000000000 7

next_delay-lt_example :
    ((next_delay delays).0 ≡ 0)
    ⊎ (((next_delay delays).0 < delays.base * 2 ^ smaller delays.attempt 30)
        × ((next_delay delays).0 < delays.max))
next_delay-lt_example = next_delay-lt delays

-- Bytes are characters, and every payload is of version 4.
abbrev char_of : ℕ → Char
char_of n = if eqb n 10 then "\n" else if eqb n 58 then ":" else "x"

abbrev fourth : SseNotification
fourth = record { environment = "dev"; version = 4 }

abbrev bytes : SseFormat
bytes = record { from_utf8 = λ x. some (map char_of x); payload = λ text. some fourth }

push-append_example :
    push bytes ((100 ∷ 58 ∷ []) ++ (123 ∷ 10 ∷ [])) Sse.new
    ≡ after
        (push bytes (100 ∷ 58 ∷ []) Sse.new).0
        (push bytes (123 ∷ 10 ∷ []) (push bytes (100 ∷ 58 ∷ []) Sse.new).1)
push-append_example =
    push-append bytes (100 ∷ 58 ∷ []) (123 ∷ 10 ∷ []) ("x" ∷ ":" ∷ []) ("x" ∷ "\n" ∷ []) Sse.new
      refl refl refl

push_text-frame_example :
    push_text bytes (frame ("{" ∷ "}" ∷ [])) (record { line_buf = []; data_buf = none })
    ≡ (fourth ∷ [], Sse.new)
push_text-frame_example =
    push_text-frame bytes ("{" ∷ "}" ∷ []) fourth none ((refl, refl), ((refl, refl), tt)) refl

-- {"flags": {}}
abbrev read : String → Option JsonValue
read text = some (object (field "flags" (object end) end))

abbrev no_flags : FlagSetOf
no_flags = record { flags = []; metadata = [] }

abbrev fresh : Client ℕ
fresh = initialize read true none

fetch_and_store-false_example :
    (fetch_and_store read 5 (some renamed) (λ etag. none) fresh).1 ≡ fresh
fetch_and_store-false_example =
    fetch_and_store-false read 5 (some renamed) (λ etag. none) fresh
      (unfold fetch_and_store in refl)

abbrev saved : Option SnapshotFile
saved = some (record { version = some 3; document = "{..}" })

abbrev answer : Response
answer = record { status = 200; version = some "4"; etag = some "\"4\""; body = some "{..}" }

abbrev moment : Moment ℕ
moment = record { now = 5; path = some renamed; server = λ etag. some answer }

-- The server refuses the stream, and the task waits.
abbrev refused_once : Supervisor ℕ xorshift_jitter
refused_once = back_off (started read moment fresh delays)

document_parses : from_json read "{..}" ≡ ok no_flags
unfolding from_json flag_set flaps.Prelude.Map.get flaps.Eval.Parse.Values.collect
    flaps.Eval.Parse.Values.optional_metadata
document_parses = refl

saved_loads : (initialize {Instant = ℕ} read true saved).shared.flag_set ≡ some no_flags
unfolding initialize load_snapshot load_parsed from_json flag_set flaps.Prelude.Map.get
    flaps.Eval.Parse.Values.collect flaps.Eval.Parse.Values.optional_metadata
saved_loads = refl

step-tick_example :
    (next : Supervisor ℕ xorshift_jitter) × (step read bytes moment tick refused_once ≡ some next)
    × (next.phase ≡ refused_once.phase)
    × (next.backoff ≡ refused_once.backoff)
    × (next.client.shared.flag_set ≡ some no_flags)
step-tick_example =
    step-tick read bytes moment refused_once answer "{..}" no_flags (unfold back_off in (λ e. cc))
      refl refl (unfold is_success in refl) refl document_parses

refusal_taken :
    step read bytes moment refused (started read moment fresh delays) ≡ some refused_once
unfolding step step_in started
refusal_taken = refl

Reach-Steady_example : Steady read bytes delays refused_once
Reach-Steady_example =
    Reach-Steady read bytes none delays refused_once
      (Reach.then_step moment refused refl (Reach.start moment refl) refusal_taken)

-- Instants are their ages in nanoseconds, and the threshold is ten.
abbrev failed_start : Bool × Client ℕ
failed_start = fetch_and_store read 5 none (λ etag. none) (initialize read true saved)

warm_start-status_example :
    status (λ t. t) (some 10) failed_start.1.shared ≡ (if failed_start.0 then ready else stale)
warm_start-status_example =
    warm_start-status read (λ t. t) 10 saved no_flags 5 none (λ etag. none) saved_loads
      (omega arith)

abbrev small_integers : Integers integers.F64 integers.Number
small_integers = record {
  as_i64 = some;
  i64_min_f64 = some (negsuc 1000);
  i64_max_safe_f64 = some (pos 1000);
}

abbrev date_and_text : OpenFeatureContext integers.F64 integers.Number
date_and_text = record {
  targeting_key = some "ann";
  custom_fields = ("since", FieldValue.date_time (pos 9)) ∷ ("plan", FieldValue.string "pro") ∷ [];
}

resolve_value-status_example :
    (resolve_value small_integers to_bool 7 fresh.shared "f" date_and_text ≡ err provider_not_ready)
    ↔ (status (λ t. t) (some 10) fresh.shared ≡ not_ready)
resolve_value-status_example =
    resolve_value-status small_integers to_bool (λ t. t) (some 10) 7 fresh.shared "f" date_and_text
