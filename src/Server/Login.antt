-- ===== src/Server/Login.antt =====
-- `post_login` of crates/flaps-server/src/routes/auth.rs, with the accounts of crates/flaps-store/src/account.rs.
pub mod Outcomes
pub mod Threads
pub mod Ceiling
use flaps.Prelude.{ℕ, zero, suc, String, Option, none, some, Result, ok, err}
use flaps.Numbers.{Numbers}
use flaps.Server.ApiErrors.{ApiError, StoreError, show_store_error, unauthorized, internal}
use flaps.Server.RateLimit.{Host, RateLimiter, check}
use flaps.Server.Preauth.{
  PreAuthBudget, PreAuthRejection, identity_budget_exhausted, consume, from_rejection,
  validate_credential_lengths,
}
use flaps.Server.Preauth

pub record AccountRecord : Type 0 where
  pub id : String
  pub username : String

pub record NewSession : Type 0 where
  pub token : String
  pub expires_at : String

-- The accounts and sessions of a store with states `S`, as the handlers call them.
pub record Accounts (S : Type 0) : Type 0 where
  pub verify_credentials : String → String → S → Result StoreError (Option AccountRecord) × S
  pub create_session : String → ℕ → S → Result StoreError NewSession × S
  pub resolve_session : String → S → Result StoreError (Option AccountRecord)

-- The instants at which the limiters read the clock.
pub record LoginTimes (Instant : Type 0) : Type 0 where
  pub global : Instant
  pub per_client : Instant
  pub login : Instant

module _ ⦃num : Numbers⦄ (host : Host) {S : Type 0} (accounts : Accounts S) where
  -- What of the application's state a login uses.
  pub record LoginState : Type 0 where
    pub store : S
    pub preauth_budget : PreAuthBudget host
    pub login_rate_limiter : RateLimiter host
    -- free permits
    pub password_pool : ℕ
    pub session_ttl : ℕ

  unfoldable pub with_session :
      Result StoreError NewSession × S → LoginState → Result ApiError NewSession × LoginState
  with_session (err e, store) s = (err (internal (show_store_error e)), record s { store = store })
  with_session (ok session, store) s = (ok session, record s { store = store })

  unfoldable pub with_account :
      Result StoreError (Option AccountRecord) × S
      → LoginState
      → Result ApiError NewSession × LoginState
  unfolding with_session
  with_account (err e, store) s = (err (internal (show_store_error e)), record s { store = store })
  with_account (ok none, store) s = (err unauthorized, record s { store = store })
  with_account (ok (some account), store) s =
      with_session (accounts.create_session account.id s.session_ttl store)
        (record s { store = store })

  -- The permit is dropped at the end of the handler, whatever it returns.
  unfoldable pub drop_permit :
      Result ApiError NewSession × LoginState → Result ApiError NewSession × LoginState
  drop_permit (answer, s) = (answer, record s { password_pool = suc s.password_pool })

  unfoldable pub with_permit :
      String
      → String
      → Result PreAuthRejection ℕ
      → LoginState
      → Result ApiError NewSession × LoginState
  unfolding with_account drop_permit from_rejection
  with_permit username password (err rejection) s = (err (from_rejection rejection), s)
  with_permit username password (ok free) s = drop_permit (
      with_account (accounts.verify_credentials username password s.store)
        (record s { password_pool = free }))

  -- The wait that the limiter returns is discarded.
  unfoldable pub with_login_check :
      String
      → String
      → Result ℕ (Unit {0}) × RateLimiter host
      → LoginState
      → Result ApiError NewSession × LoginState
  unfolding with_permit Preauth.try_acquire from_rejection
  with_login_check username password (err wait, limiter) s =
      (err (from_rejection identity_budget_exhausted), record s { login_rate_limiter = limiter })
  with_login_check username password (ok unit, limiter) s =
      with_permit username password (Preauth.try_acquire s.password_pool)
        (record s { login_rate_limiter = limiter })

  unfoldable pub with_budget :
      LoginTimes host.Instant
      → String
      → String
      → Result PreAuthRejection (Unit {0}) × PreAuthBudget host
      → LoginState
      → Result ApiError NewSession × LoginState
  unfolding with_login_check check from_rejection
  with_budget times username password (err rejection, budget) s =
      (err (from_rejection rejection), record s { preauth_budget = budget })
  with_budget times username password (ok unit, budget) s =
      with_login_check username password (check host times.login username s.login_rate_limiter)
        (record s { preauth_budget = budget })

  unfoldable pub with_lengths :
      LoginTimes host.Instant
      → String
      → String
      → String
      → Result ApiError (Unit {0})
      → LoginState
      → Result ApiError NewSession × LoginState
  unfolding with_budget consume
  with_lengths times client username password (err e) s = (err e, s)
  with_lengths times client username password (ok unit) s =
      with_budget times username password
        (consume host times.global times.per_client client s.preauth_budget) s

  -- A client is its bucket key.
  unfoldable pub post_login :
      LoginTimes host.Instant
      → String
      → String
      → String
      → LoginState
      → Result ApiError NewSession × LoginState
  unfolding with_lengths validate_credential_lengths
  post_login times client username password s =
      with_lengths times client username password (validate_credential_lengths username password) s
