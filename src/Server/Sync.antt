-- ===== src/Server/Sync.antt =====
-- The handlers of crates/flaps-server/src/sync.rs, and `get_whoami` of routes/sdk.rs. The frames of a stream are its payloads,
-- and a response is what distinguishes it.
pub mod Caching
pub mod Subscribing
use Prim.Native.String.{◌++◌}
use flaps.Prelude.{
  ℕ, String, Bool, true, false, ◌||◌, not, Option, none, some, List, [], ◌∷◌, Result, ok, err,
  ◌>>=◌, ◌>>◌, ◌==◌, if◌then◌else◌,
}
use flaps.Prelude.Text.{trim, show_nat}
use flaps.Numbers.{Numbers}
use flaps.Domain.SdkKey.{SdkKeyKind, SdkKeyScope, server, client}
use flaps.Compiler.Environment.{CompiledRuleset}
use flaps.Server.ApiErrors.{ApiError, forbidden, not_found, too_many_requests}
use flaps.Server.RateLimit.{Host, RateLimiter, check}
use flaps.Server.SseQuota.{SseQuota, SseQuotaError, SseSubscriptionGuard, try_acquire}
use flaps.Server.SdkAuth.{Header, SdkKeyPrincipal, Extracted}

pub record SyncEvent : Type 0 where
  pub project : String
  pub environment : String
  pub version : ℕ

pub record EventPayload : Type 0 where
  pub environment : String
  pub version : ℕ

-- Rulesets by project and environment.
abbrev pub CompiledCache : Type 0
CompiledCache = List ((String × String) × CompiledRuleset)

-- `HashMap::get`
unfoldable pub cached : String → String → CompiledCache → Option CompiledRuleset
cached project environment [] = none
cached project environment (((p, e), compiled) ∷ rest) =
    let later = cached project environment rest in
    if p == project then (if e == environment then some compiled else later) else later

unfoldable pub format_etag : String → String
format_etag content_hash = "\"" ++ (content_hash ++ "\"")

unfoldable pub is_not_modified : Header → String → Bool
is_not_modified none etag = false
is_not_modified (some none) etag = false
is_not_modified (some (some sent)) etag = trim sent == etag

unfoldable pub require_server_key : SdkKeyKind → Result ApiError (Unit {0})
require_server_key server = ok tt
require_server_key client = err forbidden

-- 304, or 200 with the headers `ETag` and `X-Flaps-Version` where they are header values.
pub data RulesetResponse : Type 0 where
  not_modified : RulesetResponse
  downloaded : String → Option String → Option String → RulesetResponse

-- `HeaderValue::from_str(..)`, by its test.
unfoldable pub header_if : (String → Bool) → String → Option String
header_if valid text = if valid text then some text else none

unfoldable pub respond :
    (String → Bool) → Header → Option CompiledRuleset → Result ApiError RulesetResponse
unfolding format_etag is_not_modified header_if
respond valid if_none_match none = err not_found
respond valid if_none_match (some entry) =
    let etag = format_etag entry.content_hash in
    if is_not_modified if_none_match etag
    then ok not_modified
    else ok (
        downloaded entry.document (header_if valid etag) (header_if valid (show_nat entry.version)))

-- `principal.map_err(|(_, e)| e)?`
unfoldable pub principal_or : Extracted → Result ApiError SdkKeyPrincipal
principal_or (ok principal) = ok principal
principal_or (err (status, e)) = err e

-- `map_err(|retry_after_seconds| ..)`
unfoldable pub limited : Result ℕ (Unit {0}) → Result ApiError (Unit {0})
limited (ok unit) = ok tt
limited (err wait) = err (too_many_requests wait)

module _ ⦃num : Numbers⦄ (host : Host) where
  unfoldable pub server_ruleset :
      (String → Bool)
      → host.Instant
      → Header
      → CompiledCache
      → Result ApiError SdkKeyPrincipal
      → RateLimiter host
      → Result ApiError RulesetResponse × RateLimiter host
  unfolding require_server_key check limited respond cached
  server_ruleset valid now if_none_match cache (err e) limiter = (err e, limiter)
  server_ruleset valid now if_none_match cache (ok principal) limiter =
      elim (require_server_key principal.kind) [
        | err e ↦ (err e, limiter)
        | ok unit ↦
            let (answer, left) = check host now principal.prefix limiter in
            (
              (do
                limited answer
                respond valid if_none_match
                    (cached principal.scope.project_key principal.scope.environment_key cache)),
              left,
            )
      ]

  unfoldable pub get_ruleset :
      (String → Bool)
      → host.Instant
      → Extracted
      → Header
      → CompiledCache
      → RateLimiter host
      → Result ApiError RulesetResponse × RateLimiter host
  unfolding server_ruleset principal_or
  get_ruleset valid now principal if_none_match cache limiter =
      server_ruleset valid now if_none_match cache (principal_or principal) limiter

  unfoldable pub checked_scope :
      host.Instant
      → Result ApiError SdkKeyPrincipal
      → RateLimiter host
      → Result ApiError (SdkKeyScope × SdkKeyKind) × RateLimiter host
  unfolding check limited
  checked_scope now (err e) limiter = (err e, limiter)
  checked_scope now (ok principal) limiter =
      let (answer, left) = check host now principal.prefix limiter in
      ((do limited answer; ok (principal.scope, principal.kind)), left)

  unfoldable pub get_whoami :
      host.Instant
      → Extracted
      → RateLimiter host
      → Result ApiError (SdkKeyScope × SdkKeyKind) × RateLimiter host
  unfolding checked_scope principal_or
  get_whoami now principal limiter = checked_scope now (principal_or principal) limiter

abbrev pub sse_quota_retry_after_secs : ℕ
sse_quota_retry_after_secs = 30

unfoldable pub acquired :
    Result SseQuotaError SseSubscriptionGuard × SseQuota
    → Result ApiError SseSubscriptionGuard × SseQuota
acquired (err reason, quota) = (err (too_many_requests sse_quota_retry_after_secs), quota)
acquired (ok guard, quota) = (ok guard, quota)

unfoldable pub subscribed :
    Result ApiError (Unit {0})
    → SdkKeyPrincipal
    → SseQuota
    → Result ApiError SseSubscriptionGuard × SseQuota
unfolding acquired try_acquire
subscribed (err e) principal quota = (err e, quota)
subscribed (ok unit) principal quota = acquired (try_acquire principal.prefix quota)

unfoldable pub server_events :
    Result ApiError SdkKeyPrincipal → SseQuota → Result ApiError SseSubscriptionGuard × SseQuota
unfolding require_server_key subscribed
server_events (err e) quota = (err e, quota)
server_events (ok principal) quota = subscribed (require_server_key principal.kind) principal quota

-- `get_events`, to the guard that the stream holds.
unfoldable pub get_events : Extracted → SseQuota → Result ApiError SseSubscriptionGuard × SseQuota
unfolding server_events principal_or
get_events principal quota = server_events (principal_or principal) quota

-- What the stream of a scope makes of an event of the bus, `none` for a receiver that lags.
unfoldable pub frame_of : SdkKeyScope → Option SyncEvent → Option EventPayload
frame_of scope none = none
frame_of scope (some event) =
    if not (event.project == scope.project_key) || not (event.environment == scope.environment_key)
    then none
    else some (record { environment = event.environment; version = event.version })
