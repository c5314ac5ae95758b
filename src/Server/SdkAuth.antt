-- ===== src/Server/SdkAuth.antt =====
-- The extractors of crates/flaps-server/src/auth.rs and the audit actor of actor.rs. A header that is there is a text, where
-- it has one (`to_str`).
pub mod Lookups
use flaps.Prelude.{ℕ, String, Bool, Option, none, some, Result, ok, err, ◌>>=◌, if◌then◌else◌}
use flaps.Prelude.Text.{has_prefix, str_drop, trim, is_empty}
use flaps.Numbers.{Numbers}
use flaps.Domain.SdkKey.{SdkKeyKind, SdkKeyScope, SdkKeyRecord}
use flaps.Server.ApiErrors.{
  ApiError, StoreError, show_store_error, unauthorized, internal, invalid_body,
}
use flaps.Server.RateLimit.{Host}
use flaps.Server.Preauth.{
  PreAuthBudget, PreAuthRejection, sdk_admits, consume_sdk_failure, from_rejection,
  reject_impossible_sdk_key,
}
use flaps.Server.Login.{Accounts, AccountRecord}

abbrev pub Header : Type 0
Header = Option (Option String)

pub record AdminPrincipal : Type 0 where
  pub account_id : String
  pub username : String

pub record SdkKeyPrincipal : Type 0 where
  pub scope : SdkKeyScope
  pub kind : SdkKeyKind
  pub prefix : String

unfoldable pub extract_bearer : Header → Option String
extract_bearer none = none
extract_bearer (some none) = none
extract_bearer (some (some text)) =
    if has_prefix text "Bearer " then some (str_drop 7 text) else none

unfoldable pub extract_actor : Header → Result ApiError String
extract_actor none = err (invalid_body "Missing required header X-Flaps-Actor")
extract_actor (some none) = err (invalid_body "Header X-Flaps-Actor is not valid UTF-8")
extract_actor (some (some text)) =
    if is_empty (trim text)
    then err (invalid_body "Header X-Flaps-Actor must not be empty")
    else ok (trim text)

of_account : Result StoreError (Option AccountRecord) → Result ApiError AdminPrincipal
of_account (err e) = err (internal (show_store_error e))
of_account (ok none) = err unauthorized
of_account (ok (some account)) =
    ok (record { account_id = account.id; username = account.username })

of_token : {S : Type 0} → Accounts S → S → Option String → Result ApiError AdminPrincipal
unfolding of_account
of_token accounts store none = err unauthorized
of_token accounts store (some token) = of_account (accounts.resolve_session token store)

-- `AdminPrincipal::from_request_parts`
unfoldable pub admin_principal :
    {S : Type 0} → Accounts S → S → Header → Result ApiError AdminPrincipal
unfolding of_token
admin_principal accounts store header = of_token accounts store (extract_bearer header)

-- `find_sdk_key` of a store.
abbrev pub SdkKeys : Type 0
SdkKeys = String → Result StoreError (Option SdkKeyRecord)

unfoldable pub principal_of : SdkKeyRecord → SdkKeyPrincipal
principal_of found = record { scope = found.scope; kind = found.kind; prefix = found.prefix }

abbrev pub Extracted : Type 0
Extracted = Result (ℕ × ApiError) SdkKeyPrincipal

module _ ⦃num : Numbers⦄ (host : Host) where
  -- A lookup that finds no key spends the client's budget; what the budget answers is not looked at.
  unfoldable pub after_lookup :
      host.Instant
      → String
      → Result StoreError (Option SdkKeyRecord)
      → PreAuthBudget host
      → Extracted × PreAuthBudget host
  unfolding consume_sdk_failure principal_of
  after_lookup now client (err e) budget = (err (500, internal (show_store_error e)), budget)
  after_lookup now client (ok (some found)) budget = (ok (principal_of found), budget)
  after_lookup now client (ok none) budget =
      (err (401, unauthorized), (consume_sdk_failure host now client budget).1)

  unfoldable pub after_admission :
      host.Instant
      → String
      → SdkKeys
      → String
      → Result PreAuthRejection (Unit {0})
      → PreAuthBudget host
      → Extracted × PreAuthBudget host
  unfolding after_lookup from_rejection
  after_admission now client find key (err rejection) budget =
      (err (429, from_rejection rejection), budget)
  after_admission now client find key (ok unit) budget = after_lookup now client (find key) budget

  unfoldable pub after_shape :
      host.Instant
      → host.Instant
      → String
      → SdkKeys
      → String
      → Result ApiError (Unit {0})
      → PreAuthBudget host
      → Extracted × PreAuthBudget host
  unfolding after_admission sdk_admits
  after_shape now later client find key (err e) budget = (err (401, e), budget)
  after_shape now later client find key (ok unit) budget =
      after_admission later client find key (sdk_admits host now client budget) budget

  unfoldable pub after_bearer :
      host.Instant
      → host.Instant
      → String
      → SdkKeys
      → Option String
      → PreAuthBudget host
      → Extracted × PreAuthBudget host
  unfolding after_shape reject_impossible_sdk_key
  after_bearer now later client find none budget = (err (401, unauthorized), budget)
  after_bearer now later client find (some key) budget =
      after_shape now later client find key (reject_impossible_sdk_key key) budget

  -- `SdkKeyPrincipal::from_request_parts`, for a client by its bucket key; `now` and `later` are when the budget reads the
  -- clock.
  unfoldable pub sdk_principal :
      host.Instant
      → host.Instant
      → String
      → SdkKeys
      → Header
      → PreAuthBudget host
      → Extracted × PreAuthBudget host
  unfolding after_bearer extract_bearer
  sdk_principal now later client find header budget =
      after_bearer now later client find (extract_bearer header) budget
