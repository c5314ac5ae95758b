-- ===== src/Lib.antt =====
-- Flaps: feature flags that are edited as a domain model, compiled to a flagd document and evaluated by a
-- JSONLogic engine. The development follows the crates of the core.
--
-- The parts and their files:
-- - Prelude: results, options, lists, Boolean tests, 64-bit integers, text, and maps in the order of their keys
--   (`BTreeMap`). Json: `serde_json::Value`. Numbers and Versions: what the program uses of floats, of
--   `serde_json::Number` and of the crate `semver`, as records that every definition takes as an instance.
-- - Eval is crates/flaps-eval/src: Targeting (targeting.rs), Coerce, Logic, Arithmetic, Collections and Apply
--   (logic.rs), Custom (string_comparison.rs, semver.rs), Murmur and Fractional (fractional.rs), Model (model.rs),
--   Evaluate (eval.rs), Parse (parse.rs, error.rs), Serialize (serialize.rs).
-- - Domain is crates/flaps-domain/src: Key, Variant, Rollout (flag_env_config.rs), Segment, Errors.
-- - Compiler is crates/flaps-compiler/src: Segment (segment_compiler.rs), Flag (flag_compiler.rs), Environment
--   (lib.rs, input.rs, ruleset.rs). Compiler.Meaning says what segments and configurations mean without naming a
--   rule, and relates the compiled rules to it.
-- - Server is crates/flaps-server/src: ApiErrors (error.rs), SseQuota (sse_quota.rs), RateLimit (rate_limit.rs,
--   preauth/limiter_key.rs), Preauth (preauth/), Login (routes/auth.rs), SdkAuth (auth.rs, actor.rs), Sync (sync.rs,
--   routes/sdk.rs) and Recompile (recompile.rs). Login.Threads is many logins at once, Recompile.Writes what a write
--   does to the rows of the store. The modules below each prove what they are named for.
-- - Client is crates/flaps-client/src: Backoff (backoff.rs), Sse (sse.rs), Sync (sync.rs, shared.rs, snapshot.rs),
--   Supervisor (supervisor.rs) and Provider (provider.rs, status.rs; Context is context_mapper.rs, Resolving the typed
--   answers with coerce.rs, reason_mapper.rs and metadata_mapper.rs).
-- - Examples: small stand-ins for the parameters, and concrete inputs.
--
-- How they interact: `compile_environment` compiles the flags of an environment, prints the set with `to_json` and
-- parses it again with `from_json`; the server validates a change by compiling it over what the store has
-- (Recompile), installs what it compiles after the write, and announces it on a bus; a client with an SDK key passes
-- the limits (Preauth, RateLimit, SdkAuth), subscribes within the quota (SseQuota) and downloads (Sync). The client's task
-- (Supervisor) decodes the stream (Sse), fetches the document with its snapshot (Sync) and waits between attempts
-- (Backoff); `evaluate` looks a flag of the document up, makes the data of its rules (`evaluation_scope`), reduces its
-- targeting (`apply`) and selects a variant.
--
-- Correspondence: a function has its name in the source. An operator of `apply` is a function of its operands, each a
-- function of the data. `RuleParser`'s methods take what a `$ref` stands for as a function. Errors are values of the
-- source's enumerations; texts of other crates' errors are left out.
--
-- Bounds and fuel: i64 and u64 arithmetic is written with its wrap-around or saturation, 32-bit words with `% 2 ^ 32`.
-- `reference` takes fuel for the depth of `$ref` resolution and `flag_set` gives one more than there are declared
-- evaluators, which is enough since a name that is being resolved is an error when it comes again. `loose_eq` takes
-- fuel for its at most two conversions.
--
-- The loop of `sweep` takes fuel for each bucket, since every round removes one. The counters of a quota are 64-bit
-- words; a quota is used by many requests, each of which does one atomic access at a time. Logins go
-- on from one suspension of their handlers to the next, in any order. The task of the client is a step function:
-- `select!` waits for what the phase allows, and the order of the events is any. Delays are nanoseconds on 128 bits with
-- the saturation written out.
--
-- Not modelled: floats, version numbers, the text form of JSON, SHA-256 and HMAC, the clock and the order of hash maps
-- (parameters); the store, which is what its reads and writes return, and for a change before and after its write the rows
-- that Recompile.Writes relates; what the store still computes for a request that is cancelled; the transport and the
-- tasks of tokio; the other routes of the server, the client's structs and the texts of its messages, the daemon and the tooling.
pub mod Prelude
pub mod Json
pub mod Numbers
pub mod Versions
pub mod Domain
pub mod Eval
pub mod Compiler
pub mod Server
pub mod Client
pub mod Examples
