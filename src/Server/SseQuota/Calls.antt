-- ===== src/Server/SseQuota/Calls.antt =====
-- What a caller sees of `try_acquire` and of the drop of a guard, when no other request runs meanwhile.
use flaps.Prelude.{
  ℕ, suc, ◌+◌, ◌%◌, ◌^◌, ◌≡◌, refl, ◌∙◌, String, Option, none, some, arith, Result, ok, err,
  Option-cases, inl, inr,
}
use flaps.Server.SseQuota.{
  SseQuota, SseQuotaError, global_limit_reached, per_key_limit_reached, SseSubscriptionGuard,
  permits, try_acquire_owned, try_acquire, with_global, with_key, drop_guard, ensure_key,
  set_permits, release_global, count_active, count_closed, release_key, count_rejected,
}
use flaps.Server.SseQuota.Balance.{
  take_suc, of_key, permits-ensure_key, permits-take, permits-release_key,
}

-- Two quotas with the same free permits, globally and for each key.
pub record SamePermits (q r : SseQuota) : Type 0 where
  pub global : q.global ≡ r.global
  pub per_key : (key : String) → permits key q ≡ permits key r

-- The reason that a request finds to be refused, or none.
abbrev pub refusal : Option ℕ → Option ℕ → Option SseQuotaError
refusal none key = some global_limit_reached
refusal (some left) none = some per_key_limit_reached
refusal (some left) (some free) = none

-- What a call of `try_acquire` gives, by the reason to refuse it.
abbrev pub Answer :
    Option SseQuotaError
    → String
    → SseQuota
    → Result SseQuotaError SseSubscriptionGuard × SseQuota
    → Type 0
Answer (some e) key q given =
    given.0 ≡ err e
    × (SamePermits given.1 q
        × (given.1.active_subscriptions ≡ q.active_subscriptions
            × given.1.rejected_subscriptions ≡ (q.rejected_subscriptions + 1) % 2 ^ 64))
Answer none key q given =
    given.0 ≡ ok (record { key = key })
    × (SamePermits (drop_guard (record { key = key }) given.1) q
        × (given.1.active_subscriptions ≡ (q.active_subscriptions + 1) % 2 ^ 64
            × given.1.rejected_subscriptions ≡ q.rejected_subscriptions))

permits-given_back :
    (key j : String) (n : ℕ) (q : SseQuota)
    → permits key q ≡ suc n
    → permits j
        (release_key key (release_global (count_closed (count_active (set_permits key n q)))))
      ≡ permits j q
unfolding permits release_global count_closed count_active
permits-given_back key j n q h =
    permits-release_key key j (release_global (count_closed (count_active (set_permits key n q))))
    ∙ counted
  where
    counted :
        permits j (release_global (count_closed (count_active (set_permits key n q))))
          + of_key j key 1
        ≡ permits j q
    counted = permits-take key j n q h

with_key-Answer :
    (key : String) (q : SseQuota) (left : ℕ) (free : Option ℕ)
    → q.global ≡ suc left
    → try_acquire_owned (permits key q) ≡ free
    → Answer
        (refusal (some left) free)
        key
        q
        (with_key key free (ensure_key key (record q { global = left })))
unfolding with_key drop_guard ensure_key set_permits count_rejected count_active count_closed
    release_global permits
with_key-Answer key q left none e f = (
  refl,
  (
    record {
      global = omega arith;
      per_key = λ j. permits-ensure_key key j (record q { global = left });
    },
    (refl, refl),
  ),
)
with_key-Answer key q left (some n) e f =
    (refl, (record { global = omega arith; per_key = given_back }, (refl, refl)))
  where
    entered : SseQuota
    entered = record q { global = left }

    given_back :
        (j : String)
        → permits j (
            release_key key (
              release_global
                (count_closed (count_active (set_permits key n (ensure_key key entered))))))
          ≡ permits j q
    given_back j =
        permits-given_back key j n (ensure_key key entered)
          (permits-ensure_key key key entered ∙ take_suc (permits key q) n f)
        ∙ permits-ensure_key key j entered

-- A call of `try_acquire` is refused with `GlobalLimitReached` where no global permit is free, else with
-- `PerKeyLimitReached` where no permit of the key is free, and else admitted. A refused call leaves all free permits and
-- the active count as they were and counts one refusal; an admitted one counts one active stream, and once its guard is
-- dropped all free permits are as they were.
pub try_acquire_lem :
    (key : String) (q : SseQuota)
    → Answer
        (refusal (try_acquire_owned q.global) (try_acquire_owned (permits key q)))
        key
        q
        (try_acquire key q)
unfolding try_acquire with_global count_rejected permits
try_acquire_lem key q = elim (Option-cases (try_acquire_owned q.global)) [
  | inl full ↦ rw full (refl, (record { global = refl; per_key = λ j. refl }, (refl, refl)))
  | inr (left, e) ↦
      rw (e, permits-ensure_key key key (record q { global = left }))
        (with_key-Answer key q left (try_acquire_owned (permits key q)) (take_suc q.global left e)
          refl)
]
