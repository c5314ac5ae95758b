-- ===== src/Examples/Requests.antt =====
-- Logins, SDK requests and downloads at concrete inputs.
use flaps.Prelude.{
  ℕ, suc, ◌+◌, ◌≤◌, ◌≡◌, refl, String, Bool, true, false, Option, none, some, List, [], ◌∷◌, Result,
  ok, err, ◌⊎◌, eqb, ◌==◌, if◌then◌else◌, ltb, length,
}
use flaps.Prelude.Map
use flaps.Prelude.Text.{as_bytes}
use flaps.Domain.SdkKey.{SdkKeyRecord, SdkKeyScope, server}
use flaps.Server.ApiErrors.{unauthorized, too_many_requests}
use flaps.Server.SseQuota
use flaps.Server.SseQuota.{SseQuota}
use flaps.Server.RateLimit.{
  check, derive, spend, stored, sweep, evict, refilled, tokens_at, fullest_from, remove,
}
use flaps.Server.Preauth.{
  PreAuthBudget, consume, consume_sdk_failure, reject_impossible_sdk_key, sdk_admits,
}
use flaps.Server.Preauth
use flaps.Server.Login.{Accounts, AccountRecord, NewSession, LoginTimes, LoginState, post_login}
use flaps.Server.Login.Outcomes.{post_login-ok, post_login-too_many_requests}
use flaps.Server.Login.Threads.{System, Reach, Step, verifying, acquired, entered}
use flaps.Server.Login.Ceiling.{verifications, held, Reach-verifications}
use flaps.Server.SdkAuth.{
  SdkKeys, SdkKeyPrincipal, Header, extract_bearer, principal_of, sdk_principal,
}
use flaps.Server.SdkAuth.Lookups.{sdk_principal-ok, sdk_principal_cost}
use flaps.Server.Sync.{
  CompiledCache, SyncEvent, EventPayload, get_ruleset, get_events, frame_of, not_modified,
  downloaded, cached,
}
use flaps.Server.Sync
use flaps.Server.Sync.Caching.{get_ruleset-not_modified}
use flaps.Server.Sync.Subscribing.{Untaken, get_events-err}
use flaps.Examples.Stubs.{integers}
use flaps.Examples.Hosts.{seconds, full_table}

-- A store whose states count its calls: one account, and a session that is the count.
abbrev ann : AccountRecord
ann = record { id = "7"; username = "ann" }

abbrev opened : NewSession
opened = record { token = "t"; expires_at = "later" }

abbrev accounts : Accounts ℕ
accounts = record {
  verify_credentials =
      λ name password calls. (ok (if password == "secret" then some ann else none), suc calls);
  create_session = λ id ttl calls. (ok opened, suc calls);
  resolve_session = λ token calls. ok none;
}

abbrev times : LoginTimes ℕ
times = record { global = 9; per_client = 9; login = 9 }

abbrev logins : ℕ → LoginState seconds accounts
logins permits = record {
  store = 0;
  preauth_budget = record { global = full_table; per_client = full_table };
  login_rate_limiter = full_table;
  password_pool = permits;
  session_ttl = 60;
}

ann_enters : (post_login seconds accounts times "alice" "bob" "secret" (logins 1)).0 ≡ ok opened
unfolding post_login Preauth.validate_credential_lengths as_bytes consume check derive spend stored
    sweep evict refilled tokens_at fullest_from remove Map.get Map.insert Preauth.try_acquire
    Preauth.check_client Preauth.map_err
ann_enters = refl

post_login-ok_example :
    (account : AccountRecord) × (store : ℕ) × (accounts.verify_credentials "bob" "secret" 0
      ≡ (ok (some account), store))
    × (accounts.create_session account.id 60 store ≡ (
      ok opened,
      (post_login seconds accounts times "alice" "bob" "secret" (logins 1)).1.store,
    ))
post_login-ok_example =
    post_login-ok seconds accounts times "alice" "bob" "secret" (logins 1) opened ann_enters

-- No permit is free.
crowded :
    (post_login seconds accounts times "alice" "bob" "secret" (logins 0)).0
    ≡ err (too_many_requests 30)
unfolding post_login Preauth.validate_credential_lengths as_bytes consume check derive spend stored
    sweep evict refilled tokens_at fullest_from remove Map.get Map.insert Preauth.try_acquire
    Preauth.check_client Preauth.map_err Preauth.from_rejection Preauth.retry_after_seconds
crowded = refl

post_login-too_many_requests_example :
    (◌≡◌ {A = ℕ} 30 30)
    × ((post_login seconds accounts times "alice" "bob" "secret" (logins 0)).1.store ≡ 0)
post_login-too_many_requests_example =
    post_login-too_many_requests seconds accounts times "alice" "bob" "secret" (logins 0) 30 crowded

abbrev key : String
key = "sv_000f10ff0405060708090a0b0c0d0e0f1011121314151617"

abbrev scope : SdkKeyScope
scope = record { project_key = "shop"; environment_key = "prod" }

abbrev stored_key : SdkKeyRecord
stored_key = record {
  prefix = "bob";
  kind = server;
  scope = scope;
  created_at = "now";
  revoked_at = none;
}

abbrev find : SdkKeys
find asked = ok (if asked == key then some stored_key else none)

abbrev sent_key : Header
sent_key = some (some "Bearer sv_000f10ff0405060708090a0b0c0d0e0f1011121314151617")

abbrev budget : PreAuthBudget seconds
budget = record { global = full_table; per_client = full_table }

abbrev principal : SdkKeyPrincipal
principal = record { scope = scope; kind = server; prefix = "bob" }

let_in : (sdk_principal seconds 8 8 "alice" find sent_key budget).0 ≡ ok principal
unfolding sdk_principal flaps.Prelude.Text.has_prefix as_bytes flaps.Prelude.Text.chars Map.get
let_in = refl

sdk_principal-ok_example :
    (k : String) × (found : SdkKeyRecord) × (extract_bearer sent_key ≡ some k)
    × (reject_impossible_sdk_key k ≡ ok tt)
    × (find k ≡ ok (some found))
    × (principal ≡ principal_of found)
    × ((sdk_principal seconds 8 8 "alice" find sent_key budget).1 ≡ budget)
sdk_principal-ok_example =
    sdk_principal-ok seconds 8 8 "alice" find sent_key budget principal let_in

abbrev absent_key : Header
absent_key = some (some "Bearer cl_000f10ff0405060708090a0b0c0d0e0f1011121314151617")

sdk_principal_cost_example :
    ((sdk_principal seconds 8 8 "alice" find absent_key budget).1 ≡ budget)
    ⊎ ((k : String) × (extract_bearer absent_key ≡ some k)
        × (find k ≡ ok none)
        × ((sdk_principal seconds 8 8 "alice" find absent_key budget).0 ≡ err (401, unauthorized))
        × ((sdk_principal seconds 8 8 "alice" find absent_key budget).1
            ≡ (consume_sdk_failure seconds 8 "alice" budget).1))
sdk_principal_cost_example = sdk_principal_cost seconds 8 8 "alice" find absent_key budget

abbrev cache : CompiledCache
cache =
    (
      ("shop", "prod"),
      record { environment = "prod"; document = "{}"; content_hash = "44136f"; version = 3 },
    )
    ∷ []

downloads :
    (get_ruleset seconds (λ text. true) 8 (ok principal) none cache full_table).0
    ≡ ok (downloaded "{}" (some "\"44136f\"") (some "3"))
unfolding get_ruleset check derive spend stored sweep evict refilled tokens_at fullest_from remove
    Map.get Map.insert Sync.respond cached flaps.Prelude.Text.show_nat
downloads = refl

admitted : (check seconds 20 "bob" full_table).0 ≡ ok tt
unfolding check derive spend stored sweep evict refilled tokens_at fullest_from remove Map.get
    Map.insert
admitted = refl

get_ruleset-not_modified_example :
    (get_ruleset seconds
      (λ text. true)
      20
      (ok principal)
      (some (some "\"44136f\""))
      cache
      full_table).0
    ≡ ok not_modified
get_ruleset-not_modified_example =
    get_ruleset-not_modified seconds (λ text. true) 8 20 principal none cache full_table full_table
      "{}" "\"44136f\"" (some "3") refl downloads admitted

abbrev no_room : SseQuota
no_room = record {
  global = 0;
  per_key = [];
  max_global = 1;
  max_per_key = 1;
  active_subscriptions = 1;
  rejected_subscriptions = 0;
}

turned_away : (get_events (ok principal) no_room).0 ≡ err (too_many_requests 30)
unfolding get_events SseQuota.try_acquire SseQuota.try_acquire_owned
turned_away = refl

get_events-err_example : Untaken (get_events (ok principal) no_room).1 no_room
get_events-err_example = get_events-err (ok principal) no_room (too_many_requests 30) turned_away

abbrev shown : EventPayload
shown = record { environment = "prod"; version = 4 }

abbrev event : SyncEvent
event = record { project = "shop"; environment = "prod"; version = 4 }

-- Two logins reach a pool of one permit: the first waits for its verification, the second is turned away.
abbrev one_verifies : System accounts 60
one_verifies = record {
  shared = record { store = 0; free = 0 };
  threads = record { phase = verifying "bob" "secret"; held = 1 } ∷ [];
}

one_verifies-Reach : Reach accounts 60 1 0 one_verifies
unfolding acquired entered Preauth.try_acquire Preauth.with_capacity
one_verifies-Reach =
    Reach.next (Reach.next Reach.start (Step.arrive "bob" "secret" _ refl refl))
      (Step.arrive "ann" "wrong" _ refl refl)

Reach-verifications_example :
    (verifications one_verifies.threads ≤ Preauth.with_capacity 1)
    × (one_verifies.shared.free + held one_verifies.threads ≡ Preauth.with_capacity 1)
Reach-verifications_example = Reach-verifications accounts 60 1 0 one_verifies one_verifies-Reach
