-- ===== src/Server/Sync/Subscribing.antt =====
-- A subscription that is refused.
use flaps.Prelude.{◌≡◌, refl, String, Option, none, some, Result, ok, err}
use flaps.Server.ApiErrors.{ApiError}
use flaps.Server.SseQuota.{
  SseQuota, SseQuotaError, SseSubscriptionGuard, permits, try_acquire, try_acquire_owned,
}
use flaps.Server.SseQuota.Calls.{SamePermits, Answer, refusal, try_acquire_lem}
use flaps.Server.SdkAuth.{SdkKeyPrincipal, Extracted}
use flaps.Server.Sync.{
  get_events, server_events, subscribed, acquired, principal_or, require_server_key,
}

-- Nothing of a quota is taken.
abbrev pub Untaken : SseQuota → SseQuota → Type 0
Untaken after before =
    SamePermits after before × (after.active_subscriptions ≡ before.active_subscriptions)

refused-Untaken :
    (reason : Option SseQuotaError) (key : String) (q : SseQuota)
    (given : Result SseQuotaError SseSubscriptionGuard × SseQuota)
    → Answer reason key q given
    → (e : ApiError) → (acquired given).0 ≡ err e
    → Untaken (acquired given).1 q
unfolding acquired
refused-Untaken (some reason) key q (err x, after) (failed, (same, (active, counted))) e h =
    (same, active)
refused-Untaken (some reason) key q (ok x, after) (failed, (same, (active, counted))) e h = cc
refused-Untaken none key q (err x, after) (went, rest) e h = cc
refused-Untaken none key q (ok x, after) (went, rest) e h = cc

untouched : (q : SseQuota) → Untaken q q
untouched q = (record { global = refl; per_key = λ key. refl }, refl)

subscribed-Untaken :
    (allowed : Result ApiError (Unit {0})) (principal : SdkKeyPrincipal) (q : SseQuota)
    (e : ApiError)
    → (subscribed allowed principal q).0 ≡ err e
    → Untaken (subscribed allowed principal q).1 q
unfolding subscribed
subscribed-Untaken (err x) principal q e h = untouched q
subscribed-Untaken (ok unit) principal q e h =
    refused-Untaken
      (refusal (try_acquire_owned q.global) (try_acquire_owned (permits principal.prefix q)))
      principal.prefix q (try_acquire principal.prefix q) (try_acquire_lem principal.prefix q) e h

events-Untaken :
    (principal : Result ApiError SdkKeyPrincipal) (q : SseQuota) (e : ApiError)
    → (server_events principal q).0 ≡ err e
    → Untaken (server_events principal q).1 q
unfolding server_events
events-Untaken (err x) q e h = untouched q
events-Untaken (ok principal) q e h =
    subscribed-Untaken (require_server_key principal.kind) principal q e h

-- A subscription that `get_events` refuses, for the request, the kind of its key or the quota, leaves every free permit and the count
-- of open streams as they were.
pub get_events-err :
    (principal : Extracted) (q : SseQuota) (e : ApiError)
    → (get_events principal q).0 ≡ err e
    → Untaken (get_events principal q).1 q
unfolding get_events
get_events-err principal q e h = events-Untaken (principal_or principal) q e h
