-- ===== src/Server/Preauth.antt =====
-- crates/flaps-server/src/preauth: what stands before every unauthenticated request. budget.rs, client_address.rs,
-- limits.rs, password_pool.rs and sdk_key_shape.rs.
pub mod Flood
pub mod Shape
pub mod Hex
use Prim.Native.Char.{Char, code}
use flaps.Prelude.{
  ℕ, zero, suc, ◌+◌, String, Bool, true, false, not, ◌&&◌, ◌||◌, Option, none, some, List, [], ◌∷◌,
  Result, ok, err, ◌>>=◌, ◌>>◌, if◌then◌else◌, ltb, leb, eqb, length,
}
use flaps.Prelude.Text.{as_bytes, has_prefix, is_digit, str_drop, chars}
use flaps.Numbers.{Numbers}
use flaps.Server.ApiErrors.{ApiError, unauthorized, invalid_body, too_many_requests}
use flaps.Server.RateLimit.{Host, RateLimitConfig, RateLimiter, check, has_capacity}
use flaps.Server.RateLimit

pub data PreAuthRejection : Type 0 where
  global_budget_exhausted client_budget_exhausted identity_budget_exhausted : PreAuthRejection

abbrev pub preauth_retry_after_secs : ℕ
preauth_retry_after_secs = 30

unfoldable pub retry_after_seconds : PreAuthRejection → ℕ
retry_after_seconds rejection = preauth_retry_after_secs

-- `ApiError::from(PreAuthRejection)` of error.rs
unfoldable pub from_rejection : PreAuthRejection → ApiError
unfolding retry_after_seconds
from_rejection rejection = too_many_requests (retry_after_seconds rejection)

-- Over the type of `IpAddr`.
pub data ClientAddress (Ip : Type 0) : Type 0 where
  known : Ip → ClientAddress Ip
  unknown : ClientAddress Ip

module _ {Ip : Type 0} where
  unfoldable pub bucket_key : (Ip → String) → ClientAddress Ip → String
  bucket_key show (known address) = show address
  bucket_key show unknown = "unknown"

  -- `from_request_parts`: the connection's address and port, where the transport has set them.
  unfoldable pub client_of : Option (Ip × ℕ) → ClientAddress Ip
  client_of none = unknown
  client_of (some (ip, port)) = known ip

unfoldable pub map_err {ℓ} : {A : Type ℓ} {E F : Type 0} → F → Result E A → Result F A
map_err e (ok a) = ok a
map_err e (err other) = err e

module _ ⦃num : Numbers⦄ (host : Host) where
  pub record PreAuthBudget : Type 0 where
    pub global : RateLimiter host
    pub per_client : RateLimiter host

  pub record PreAuthBudgetConfig : Type 0 where
    pub global : RateLimitConfig
    pub per_client : RateLimitConfig

  -- The secrets of the two limiters are drawn apart.
  unfoldable pub new_budget : PreAuthBudgetConfig → String → String → PreAuthBudget
  unfolding RateLimit.new
  new_budget config first second = record {
    global = RateLimit.new host config.global first;
    per_client = RateLimit.new host config.per_client second;
  }

  unfoldable pub check_client :
      host.Instant → String → PreAuthBudget → Result PreAuthRejection (Unit {0}) × PreAuthBudget
  unfolding check map_err
  check_client now key budget =
      let (answer, limiter) = check host now key budget.per_client in
      (map_err client_budget_exhausted answer, record budget { per_client = limiter })

  -- The widest layer first; a refusal ends the walk. `now` and `later` are when the two layers read the clock.
  unfoldable pub consume :
      host.Instant
      → host.Instant
      → String
      → PreAuthBudget
      → Result PreAuthRejection (Unit {0}) × PreAuthBudget
  unfolding check check_client
  consume now later key budget =
      let (answer, limiter) = check host now "global" budget.global in
      let debited = record budget { global = limiter } in
      elim answer [
        | ok unit ↦ check_client later key debited
        | err wait ↦ (err global_budget_exhausted, debited)
      ]

  unfoldable pub sdk_admits :
      host.Instant → String → PreAuthBudget → Result PreAuthRejection (Unit {0})
  unfolding has_capacity
  sdk_admits now key budget =
      if not (has_capacity host now key budget.per_client)
      then err client_budget_exhausted
      else ok tt

  unfoldable pub consume_sdk_failure :
      host.Instant → String → PreAuthBudget → Result PreAuthRejection (Unit {0}) × PreAuthBudget
  unfolding check_client
  consume_sdk_failure now key budget = check_client now key budget

abbrev pub max_username_bytes : ℕ
max_username_bytes = 256

abbrev pub max_password_bytes : ℕ
max_password_bytes = 1024

unfoldable pub validate_credential_lengths : String → String → Result ApiError (Unit {0})
validate_credential_lengths username password =
    if ltb max_username_bytes (length (as_bytes username))
    then err (invalid_body "username exceeds the accepted length of 256 bytes")
    else if ltb max_password_bytes (length (as_bytes password))
    then err (invalid_body "password exceeds the accepted length of 1024 bytes")
    else ok tt

-- `PasswordVerificationPool`: the free permits.
unfoldable pub with_capacity : ℕ → ℕ
with_capacity zero = 1
with_capacity (suc n) = suc n

unfoldable pub try_acquire : ℕ → Result PreAuthRejection ℕ
try_acquire zero = err global_budget_exhausted
try_acquire (suc free) = ok free

unfoldable pub is_hex : Char → Bool
is_hex c = is_digit c || leb b'a' (code c) && leb (code c) b'f'

unfoldable pub all_hex : List Char → Bool
unfolding is_hex
all_hex [] = true
all_hex (c ∷ s) = is_hex c && all_hex s

-- `strip_prefix` by the first accepted prefix that fits.
unfoldable pub strip_accepted : String → Option String
strip_accepted raw =
    if has_prefix raw "sv_"
    then some (str_drop 3 raw)
    else if has_prefix raw "cl_"
    then some (str_drop 3 raw)
    else none

abbrev pub body_hex_chars : ℕ
body_hex_chars = 48

abbrev pub sdk_key_total_bytes : ℕ
sdk_key_total_bytes = 51

unfoldable pub reject_body : Option String → Result ApiError (Unit {0})
unfolding all_hex
reject_body none = err unauthorized
reject_body (some body) =
    if not (eqb (length (as_bytes body)) body_hex_chars) || not (all_hex (chars body))
    then err unauthorized
    else ok tt

unfoldable pub reject_impossible_sdk_key : String → Result ApiError (Unit {0})
unfolding strip_accepted reject_body
reject_impossible_sdk_key raw =
    if not (eqb (length (as_bytes raw)) sdk_key_total_bytes)
    then err unauthorized
    else reject_body (strip_accepted raw)
