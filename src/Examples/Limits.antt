-- ===== src/Examples/Limits.antt =====
-- Quotas, limiters and budgets at concrete inputs.
use flaps.Prelude.{
  ℕ, ◌+◌, ◌%◌, ◌^◌, ◌≤◌, ◌≡◌, ◌↔◌, refl, String, true, some, List, [], ◌∷◌, ok, length, arith,
}
use flaps.Prelude.Int.{pos}
use flaps.Prelude.Map
use flaps.Server.SseQuota
use flaps.Server.SseQuota.{
  SseQuotaConfig, SseQuota, permits, active_subscriptions_for_key, try_acquire, drop_guard,
  per_key_limit_reached,
}
use flaps.Server.SseQuota.Threads.{System, Reach, start}
use flaps.Server.SseQuota.Balance.{lives, keys}
use flaps.Server.SseQuota.Reachable.{streams, Reach-limits, Reach-idle}
use flaps.Server.SseQuota.Sequential.{called, try_acquire-Reach, drop_guard-Reach, Reach-trans}
use flaps.Server.SseQuota.Calls.{Answer, try_acquire_lem}
use flaps.Server.RateLimit.{check, has_capacity, derive}
use flaps.Server.RateLimit.Admission.{has_capacity-check, check-le-max_buckets, check_scans}
use flaps.Server.Preauth.{PreAuthBudget, sdk_admits, reject_impossible_sdk_key}
use flaps.Server.Preauth.Flood.{fail_all, fail_all-sdk_admits}
use flaps.Domain.SdkKey.{server}
use flaps.Server.Preauth.Shape.{generate_sdk_key, generate-reject_impossible_sdk_key}
use flaps.Examples.Stubs.{integers}
use flaps.Examples.Hosts.{seconds, seconds-WalksMaps, full_table}

abbrev quota_config : SseQuotaConfig
quota_config = record { max_global = 3; max_per_key = 1 }

abbrev one_open : System
one_open = called "k1" (start quota_config)

Reach-limits_example :
    lives one_open.threads ≤ 3
    × (one_open.quota.active_subscriptions ≡ lives one_open.threads
        × ((key : String)
            → streams key one_open.threads ≤ 1
              × (active_subscriptions_for_key key one_open.quota ≡ keys key one_open.threads
                  × streams key one_open.threads
                    ≤ active_subscriptions_for_key key one_open.quota)))
Reach-limits_example =
    Reach-limits quota_config (omega arith) one_open (try_acquire-Reach "k1" (start quota_config))

abbrev closed : System
closed = record { quota = drop_guard (record { key = "k1" }) one_open.quota; threads = [] }

-- A stream is opened and closed.
closed-Reach : Reach (start quota_config) closed
unfolding start SseQuota.new try_acquire SseQuota.try_acquire_owned Map.get Map.insert
closed-Reach =
    Reach-trans (try_acquire-Reach "k1" (start quota_config))
      (drop_guard-Reach (record { key = "k1" }) one_open.quota [])

Reach-idle_example :
    closed.quota.global ≡ 3
    × (closed.quota.active_subscriptions ≡ 0 × ((key : String) → permits key closed.quota ≡ 1))
Reach-idle_example = Reach-idle quota_config (omega arith) closed closed-Reach refl

try_acquire_lem_example :
    Answer (some per_key_limit_reached) "k1" one_open.quota (try_acquire "k1" one_open.quota)
unfolding SseQuota.try_acquire_owned try_acquire start Map.get Map.insert
try_acquire_lem_example = try_acquire_lem "k1" one_open.quota

has_capacity-check_example :
    (has_capacity seconds 7 "bob" full_table ≡ true)
    ↔ ((check seconds 7 "bob" full_table).0 ≡ ok tt)
has_capacity-check_example =
    has_capacity-check seconds 7 "bob" full_table
      (record { tokens = some (pos 0); last_refill = 5 }) refl (unfold derive Map.get in refl)

check-le-max_buckets_example : length (check seconds 7 "carol" full_table).1.buckets ≤ 2
check-le-max_buckets_example =
    check-le-max_buckets seconds seconds-WalksMaps 7 "carol" full_table refl

check_scans_example :
    (scanned : ℕ) × (scanned ≤ 16)
    × ((check seconds 7 "carol" full_table).1.swept_bucket_scans % 2 ^ 64 ≡ (0 + scanned) % 2 ^ 64)
check_scans_example = check_scans seconds seconds-WalksMaps 7 "carol" full_table refl (omega arith)

abbrev budget : PreAuthBudget seconds
budget = record { global = full_table; per_client = full_table }

abbrev flood : List (ℕ × String)
flood = (6, "bob") ∷ (7, "mallory") ∷ (7, "oscar") ∷ []

fail_all-sdk_admits_example :
    (sdk_admits seconds 8 "alice" (fail_all seconds flood budget) ≡ ok tt)
    × ((fail_all seconds flood budget).global ≡ full_table)
fail_all-sdk_admits_example =
    fail_all-sdk_admits seconds seconds-WalksMaps flood 8 "alice" budget
      (unfold derive in (refl, (refl, (refl, tt))))
      (unfold sdk_admits has_capacity derive Map.get in refl)

abbrev drawn : List ℕ
drawn =
    0 ∷ 15 ∷ 16 ∷ 255 ∷ 4 ∷ 5 ∷ 6 ∷ 7 ∷ 8 ∷ 9 ∷ 10 ∷ 11 ∷ 12 ∷ 13 ∷ 14 ∷ 15 ∷ 16 ∷ 17 ∷ 18 ∷ 19 ∷ 20
    ∷ 21 ∷ 22 ∷ 23 ∷ []

generated : generate_sdk_key server drawn ≡ "sv_000f10ff0405060708090a0b0c0d0e0f1011121314151617"
unfolding generate_sdk_key
generated = refl

generate-reject_impossible_sdk_key_example :
    reject_impossible_sdk_key (generate_sdk_key server drawn) ≡ ok tt
generate-reject_impossible_sdk_key_example = generate-reject_impossible_sdk_key server drawn refl
