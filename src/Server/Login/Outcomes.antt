-- ===== src/Server/Login/Outcomes.antt =====
-- What a login comes to: what it needs to succeed, and what a throttled one says and leaves.
use flaps.Prelude.{
  ℕ, ◌≡◌, refl, ap, ◌∙◌, String, Option, none, some, Result, ok, err, ok-injective, inl, inr,
  Bool-cases, ltb, length,
}
use flaps.Prelude.Text.{as_bytes}
use flaps.Numbers.{Numbers}
use flaps.Server.ApiErrors.{ApiError, StoreError, too_many_requests, invalid_body}
use flaps.Server.RateLimit.{Host, RateLimiter, check}
use flaps.Server.Preauth.{
  PreAuthBudget, PreAuthRejection, identity_budget_exhausted, from_rejection, retry_after_seconds,
  validate_credential_lengths, consume,
}
use flaps.Server.Preauth
use flaps.Server.Login.{
  AccountRecord, NewSession, Accounts, LoginTimes, LoginState, post_login, with_session,
  with_account, drop_permit, with_permit, with_login_check, with_budget, with_lengths,
}

module _ ⦃num : Numbers⦄ (host : Host) {S : Type 0} (accounts : Accounts S) where
  -- Of a login that comes to an answer and a state: a refusal with 429 says to retry
  -- after 30 seconds, and it and one with 422 have left the store alone; and a session is made by the store for an account
  -- that it has verified by the name and the password.
  pub record Settled (username password : String) (before : LoginState host accounts)
      (after : Result ApiError NewSession × LoginState host accounts) : Type 0 where
    pub throttled :
        (seconds : ℕ)
        → after.0 ≡ err (too_many_requests seconds)
        → (seconds ≡ 30) × (after.1.store ≡ before.store)
    pub malformed :
        (text : String) → after.0 ≡ err (invalid_body text) → after.1.store ≡ before.store
    pub verified :
        (session : NewSession)
        → after.0 ≡ ok session
        → (account : AccountRecord) × (store : S) × (accounts.verify_credentials username password
              before.store
            ≡ (ok (some account), store))
          × (accounts.create_session account.id before.session_ttl store
              ≡ (ok session, after.1.store))

  session-Settled :
      (username password : String) (s : LoginState host accounts) (free : ℕ)
      (account : AccountRecord) (store : S) (made : Result StoreError NewSession × S)
      → accounts.verify_credentials username password s.store ≡ (ok (some account), store)
      → accounts.create_session account.id s.session_ttl store ≡ made
      → Settled username password s (
          drop_permit host accounts
            (with_session host accounts made (record s { password_pool = free; store = store })))
  unfolding with_session drop_permit
  session-Settled username password s free account store (err e, left) checked created = record {
    throttled = λ n h. cc;
    malformed = λ t h. cc;
    verified = λ x h. cc;
  }
  session-Settled username password s free account store (ok session, left) checked created =
      record {
        throttled = λ n h. cc;
        malformed = λ t h. cc;
        verified =
            λ x h. (account, store, checked, created ∙ ap (λ y. (ok y, left)) (ok-injective h));
      }

  account-Settled :
      (username password : String) (s : LoginState host accounts) (free : ℕ)
      (checked : Result StoreError (Option AccountRecord) × S)
      → accounts.verify_credentials username password s.store ≡ checked
      → Settled username password s (
          drop_permit host accounts
            (with_account host accounts checked (record s { password_pool = free })))
  unfolding with_account drop_permit
  account-Settled username password s free (err e, left) same = record {
    throttled = λ n h. cc;
    malformed = λ t h. cc;
    verified = λ x h. cc;
  }
  account-Settled username password s free (ok none, left) same = record {
    throttled = λ n h. cc;
    malformed = λ t h. cc;
    verified = λ x h. cc;
  }
  account-Settled username password s free (ok (some account), left) same =
      session-Settled username password s free account left
        (accounts.create_session account.id s.session_ttl left) same refl

  -- Stages that leave the store alone change nothing of what is settled.
  Settled-before :
      (username password : String) (s t : LoginState host accounts)
      (after : Result ApiError NewSession × LoginState host accounts)
      → t.store ≡ s.store
      → t.session_ttl ≡ s.session_ttl
      → Settled username password t after
      → Settled username password s after
  Settled-before username password s t after store ttl settled = record {
    throttled = λ n h. let (seconds, left) = settled.throttled n h in (seconds, left ∙ store);
    malformed = λ x h. settled.malformed x h ∙ store;
    verified = λ x h. rw (← store, ← ttl) (settled.verified x h);
  }

  rejected-Settled :
      (username password : String) (rejection : PreAuthRejection) (s : LoginState host accounts)
      → Settled username password s (err (from_rejection rejection), s)
  unfolding from_rejection retry_after_seconds
  rejected-Settled username password rejection s = record {
    throttled = λ n h. (cc, refl);
    malformed = λ t h. refl;
    verified = λ x h. cc;
  }

  permit-Settled :
      (username password : String) (acquired : Result PreAuthRejection ℕ)
      (s : LoginState host accounts)
      → Settled username password s (with_permit host accounts username password acquired s)
  unfolding with_permit
  permit-Settled username password (err rejection) s =
      rejected-Settled username password rejection s
  permit-Settled username password (ok free) s =
      account-Settled username password s free
        (accounts.verify_credentials username password s.store) refl

  check-Settled :
      (username password : String) (checked : Result ℕ (Unit {0}) × RateLimiter host)
      (s : LoginState host accounts)
      → Settled username password s (with_login_check host accounts username password checked s)
  unfolding with_login_check
  check-Settled username password (err wait, limiter) s =
      Settled-before username password s (record s { login_rate_limiter = limiter }) _ refl refl
        (rejected-Settled username password identity_budget_exhausted
          (record s { login_rate_limiter = limiter }))
  check-Settled username password (ok unit, limiter) s =
      Settled-before username password s (record s { login_rate_limiter = limiter }) _ refl refl
        (permit-Settled username password (Preauth.try_acquire s.password_pool)
          (record s { login_rate_limiter = limiter }))

  budget-Settled :
      (times : LoginTimes host.Instant) (username password : String)
      (consumed : Result PreAuthRejection (Unit {0}) × PreAuthBudget host)
      (s : LoginState host accounts)
      → Settled username password s (with_budget host accounts times username password consumed s)
  unfolding with_budget
  budget-Settled times username password (err rejection, budget) s =
      Settled-before username password s (record s { preauth_budget = budget }) _ refl refl
        (rejected-Settled username password rejection (record s { preauth_budget = budget }))
  budget-Settled times username password (ok unit, budget) s =
      Settled-before username password s (record s { preauth_budget = budget }) _ refl refl
        (check-Settled username password (check host times.login username s.login_rate_limiter)
          (record s { preauth_budget = budget }))

  refused-Settled :
      (username password text : String) (s : LoginState host accounts)
      → Settled username password s (err (invalid_body text), s)
  refused-Settled username password text s = record {
    throttled = λ n h. cc;
    malformed = λ t h. refl;
    verified = λ x h. cc;
  }

  login-Settled :
      (times : LoginTimes host.Instant) (client username password : String)
      (s : LoginState host accounts)
      → Settled username password s (post_login host accounts times client username password s)
  unfolding post_login with_lengths validate_credential_lengths
  login-Settled times client username password s =
      elim (Bool-cases (ltb 256 (length (as_bytes username)))) [
        | inl long ↦ rw long (refused-Settled username password _ s)
        | inr fits ↦ rw fits (elim (Bool-cases (ltb 1024 (length (as_bytes password)))) [
          | inl long ↦ rw long (refused-Settled username password _ s)
          | inr short ↦ rw short (
              budget-Settled times username password
                (consume host times.global times.per_client client s.preauth_budget) s)
        ])
      ]

  -- A login succeeds only with a session that the store made for an account which it had verified by the name and the
  -- password of the request.
  pub post_login-ok :
      (times : LoginTimes host.Instant) (client username password : String)
      (s : LoginState host accounts) (session : NewSession)
      → (post_login host accounts times client username password s).0 ≡ ok session
      → (account : AccountRecord) × (store : S) × (accounts.verify_credentials username password
            s.store
          ≡ (ok (some account), store))
        × (accounts.create_session account.id s.session_ttl store
            ≡ (ok session, (post_login host accounts times client username password s).1.store))
  post_login-ok times client username password s session =
      (login-Settled times client username password s).verified session

  -- A login that is refused with 429, whichever of the budgets, the throttle of the account and the ceiling on verifications
  -- refuses it, says to retry after 30 seconds and has not touched the store.
  pub post_login-too_many_requests :
      (times : LoginTimes host.Instant) (client username password : String)
      (s : LoginState host accounts) (seconds : ℕ)
      → (post_login host accounts times client username password s).0
        ≡ err (too_many_requests seconds)
      → (seconds ≡ 30)
        × ((post_login host accounts times client username password s).1.store ≡ s.store)
  post_login-too_many_requests times client username password s =
      (login-Settled times client username password s).throttled
