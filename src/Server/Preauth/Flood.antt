-- ===== src/Server/Preauth/Flood.antt =====
-- Failing SDK lookups of some clients and the budgets of the others.
use flaps.Prelude.{
  ◌≡◌, refl, sym, subst, String, true, false, List, [], ◌∷◌, ok, err≢ok, ◌==◌, All, Bool-cases, inl,
  inr,
}
use flaps.Numbers.{Numbers}
use flaps.Server.RateLimit.{Host, has_capacity, derive}
use flaps.Server.RateLimit.Table.{WalksMaps}
use flaps.Server.RateLimit.Admission.{check-has_capacity, check_keeps_secret}
use flaps.Server.Preauth.{PreAuthBudget, sdk_admits, consume_sdk_failure, check_client}

module _ ⦃num : Numbers⦄ (host : Host) where
  -- Failures of the clients, each at an instant.
  unfoldable pub fail_all : List (host.Instant × String) → PreAuthBudget host → PreAuthBudget host
  fail_all [] budget = budget
  fail_all ((now, key) ∷ failures) budget =
      fail_all failures (consume_sdk_failure host now key budget).1

  -- Apart from a client: the key of another one, which is derived to another key.
  abbrev pub ApartFrom : String → String → (host.Instant × String) → Type 0
  ApartFrom key secret failure = (derive host secret failure.1 == derive host secret key) ≡ false

  admits-has_capacity :
      (now : host.Instant) (key : String) (budget : PreAuthBudget host)
      → sdk_admits host now key budget ≡ ok tt
      → has_capacity host now key budget.per_client ≡ true
  unfolding sdk_admits
  admits-has_capacity now key budget e =
      elim (Bool-cases (has_capacity host now key budget.per_client)) [
        | inl has ↦ has
        | inr drained ↦ elim (err≢ok (rw drained at e)) [ ]
      ]

  has_capacity-admits :
      (now : host.Instant) (key : String) (budget : PreAuthBudget host)
      → has_capacity host now key budget.per_client ≡ true
      → sdk_admits host now key budget ≡ ok tt
  unfolding sdk_admits
  has_capacity-admits now key budget e = rw e refl

  fail_all_admits :
      WalksMaps host
      → (failures : List (host.Instant × String)) (now : host.Instant) (key : String)
        (budget : PreAuthBudget host)
      → All (ApartFrom key budget.per_client.secret) failures
      → sdk_admits host now key budget ≡ ok tt
      → sdk_admits host now key (fail_all failures budget) ≡ ok tt
  unfolding fail_all consume_sdk_failure check_client
  fail_all_admits walks [] now key budget apart e = e
  fail_all_admits walks ((before, other) ∷ failures) now key budget (first, rest) e =
      fail_all_admits walks failures now key (consume_sdk_failure host before other budget).1
        (subst (λ x. All (ApartFrom key x) failures)
          (sym (check_keeps_secret host walks before other budget.per_client)) rest)
        (has_capacity-admits now key (consume_sdk_failure host before other budget).1 (
          check-has_capacity host walks before now other key budget.per_client first
            (admits-has_capacity now key budget e)))

  fail_all-global :
      (failures : List (host.Instant × String)) (budget : PreAuthBudget host)
      → (fail_all failures budget).global ≡ budget.global
  unfolding fail_all consume_sdk_failure check_client
  fail_all-global [] budget = refl
  fail_all-global ((before, other) ∷ failures) budget =
      fail_all-global failures (consume_sdk_failure host before other budget).1

  -- A flood of failing SDK lookups from other addresses, at any instants and of any length, never makes `sdk_admits` refuse a
  -- client that it admits at some instant, and leaves the global layer, which the login path goes through, as it was,
  -- where the keys derived from the other addresses are not the key derived from the client.
  pub fail_all-sdk_admits :
      WalksMaps host
      → (failures : List (host.Instant × String)) (now : host.Instant) (key : String)
        (budget : PreAuthBudget host)
      → All (ApartFrom key budget.per_client.secret) failures
      → sdk_admits host now key budget ≡ ok tt
      → (sdk_admits host now key (fail_all failures budget) ≡ ok tt)
        × ((fail_all failures budget).global ≡ budget.global)
  fail_all-sdk_admits walks failures now key budget apart admitted = (
    fail_all_admits walks failures now key budget apart admitted,
    fail_all-global failures budget,
  )
