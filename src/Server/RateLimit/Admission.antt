-- ===== src/Server/RateLimit/Admission.antt =====
-- What a check answers, and what it does to the other buckets.
use flaps.Prelude.{
  ℕ, ◌+◌, ◌%◌, ◌^◌, ◌≤◌, ◌≡◌, refl, sym, subst, ap, ◌∙◌, ◌↔◌, String, true, false, Option, none,
  some, length, ◌==◌, arith, Bool-cases, inl, inr, ◌⊎◌, ok, err≢ok,
}
use flaps.Prelude.Map
use flaps.Prelude.Map.Laws.{get-insert-other}
use flaps.Numbers.{Numbers}
use flaps.Server.RateLimit.{
  Bucket, Host, RateLimiter, check, has_capacity, derive, spend, refilled, stored, swept, tokens_at,
  level_of, bucket_or_full,
}
use flaps.Server.RateLimit.Table.{WalksMaps, length-insert-le}
use flaps.Server.RateLimit.Sweep.{Swept, sweep-Swept}

module _ ⦃num : Numbers⦄ (host : Host) where
  spend-ok :
      (rate tokens : num.F64)
      → (spend host rate tokens).0 ≡ ok tt ↔ (num.le (num.of_nat 1) tokens ≡ true)
  unfolding spend
  spend-ok rate tokens = elim (Bool-cases (num.le (num.of_nat 1) tokens)) [
    | inl enough ↦ rw enough ((λ h. refl), (λ h. refl))
    | inr short ↦ rw short ((λ h. elim (err≢ok h) [ ]), (λ h. cc))
  ]

  tokens_before : host.Instant → String → RateLimiter host → num.F64
  tokens_before now key limiter = refilled host now (derive host limiter.secret key) limiter

  entered : host.Instant → String → RateLimiter host → RateLimiter host
  entered now key limiter =
      stored host now (derive host limiter.secret key)
        (spend host limiter.refill_per_second (tokens_before now key limiter)).1 limiter

  check_enabled :
      (now : host.Instant) (key : String) (limiter : RateLimiter host)
      → limiter.enabled ≡ true
      → check host now key limiter ≡ (
        (spend host limiter.refill_per_second (tokens_before now key limiter)).0,
        swept host now (entered now key limiter),
      )
  unfolding check tokens_before entered
  check_enabled now key limiter on = rw on refl

  -- Of an enabled limiter that has a bucket for the key, `has_capacity` says at an instant what `check` answers at the
  -- same instant: a token is there exactly if the check admits.
  pub has_capacity-check :
      (now : host.Instant) (key : String) (limiter : RateLimiter host)
      (bucket : Bucket host.Instant)
      → limiter.enabled ≡ true
      → Map.get (derive host limiter.secret key) limiter.buckets ≡ some bucket
      → (has_capacity host now key limiter ≡ true) ↔ ((check host now key limiter).0 ≡ ok tt)
  unfolding has_capacity check refilled level_of bucket_or_full
  has_capacity-check now key limiter bucket on there =
      let (admits, has) =
        spend-ok limiter.refill_per_second
          (tokens_at host bucket now limiter.capacity limiter.refill_per_second) in
      rw (check, on, there) (has, admits)

  check-Swept :
      WalksMaps host
      → (now : host.Instant) (key : String) (limiter : RateLimiter host) → limiter.enabled ≡ true
      → Swept host (entered now key limiter) (check host now key limiter).1
  unfolding swept
  check-Swept walks now key limiter on = rw (check_enabled now key limiter on) (
      sweep-Swept host walks (length (entered now key limiter).buckets) now
        (entered now key limiter) (omega arith))

  entered-le :
      (now : host.Instant) (key : String) (limiter : RateLimiter host)
      → length (entered now key limiter).buckets ≤ length limiter.buckets + 1
  unfolding entered stored
  entered-le now key limiter = length-insert-le _ _ limiter.buckets

  -- After any check of an enabled limiter the table of buckets is within its limit.
  pub check-le-max_buckets :
      WalksMaps host
      → (now : host.Instant) (key : String) (limiter : RateLimiter host) → limiter.enabled ≡ true
      → length (check host now key limiter).1.buckets ≤ limiter.max_buckets
  unfolding entered stored
  check-le-max_buckets walks now key limiter on = (check-Swept walks now key limiter on).bounded

  -- A check of an enabled limiter whose table is within its limit inspects at most 16 buckets for an eviction, whatever
  -- the size of the table.
  pub check_scans :
      WalksMaps host
      → (now : host.Instant) (key : String) (limiter : RateLimiter host) → limiter.enabled ≡ true
      → length limiter.buckets ≤ limiter.max_buckets
      → (scanned : ℕ) × (scanned ≤ 16)
        × ((check host now key limiter).1.swept_bucket_scans % 2 ^ 64
            ≡ (limiter.swept_bucket_scans + scanned) % 2 ^ 64)
  unfolding entered stored
  check_scans walks now key limiter on within =
      let swept_ = check-Swept walks now key limiter on in
      (
        swept_.scanned,
        omega (arith, swept_.scanned_bound, within, entered-le now key limiter),
        swept_.scans,
      )

  -- A check leaves the bucket of another derived key as it was, or it has evicted it.
  check-other :
      WalksMaps host
      → (now : host.Instant) (key : String) (limiter : RateLimiter host) (other : String)
      → limiter.enabled ≡ true
      → (derive host limiter.secret key == other) ≡ false
      → (Map.get other (check host now key limiter).1.buckets ≡ Map.get other limiter.buckets)
        ⊎ (Map.get other (check host now key limiter).1.buckets ≡ none)
  unfolding entered stored
  check-other walks now key limiter other on apart =
      elim ((check-Swept walks now key limiter on).kept other) [
        | inl same ↦
            inl (
              same
              ∙ get-insert-other (derive host limiter.secret key) other _ limiter.buckets apart)
        | inr gone ↦ inr gone
      ]

  level_of_kept :
      (now : host.Instant) (before after : RateLimiter host) (b a : Option (Bucket host.Instant))
      → after.capacity ≡ before.capacity
      → after.refill_per_second ≡ before.refill_per_second
      → (a ≡ b) ⊎ (a ≡ none)
      → level_of host now before b ≡ true
      → level_of host now after a ≡ true
  unfolding level_of
  level_of_kept now before after b a capacity rate (inr gone) had = rw gone refl
  level_of_kept now before after none a capacity rate (inl same) had = rw same refl
  level_of_kept now before after (some x) a capacity rate (inl same) had =
      rw (same, capacity, rate) had

  keeps_capacity :
      (now : host.Instant) (other : String) (before after : RateLimiter host)
      → before.enabled ≡ true
      → after.enabled ≡ before.enabled
      → after.secret ≡ before.secret
      → after.capacity ≡ before.capacity
      → after.refill_per_second ≡ before.refill_per_second
      → (Map.get (derive host before.secret other) after.buckets
          ≡ Map.get (derive host before.secret other) before.buckets)
        ⊎ (Map.get (derive host before.secret other) after.buckets ≡ none)
      → has_capacity host now other before ≡ true
      → has_capacity host now other after ≡ true
  unfolding has_capacity
  keeps_capacity now other before after on enabled secret capacity rate kept had =
      rw (enabled, on, secret)
        (level_of_kept now before after (Map.get (derive host before.secret other) before.buckets) _
          capacity rate kept (rw on at had))

  check_disabled :
      (now : host.Instant) (key : String) (limiter : RateLimiter host)
      → limiter.enabled ≡ false
      → check host now key limiter ≡ (ok tt, limiter)
  unfolding check
  check_disabled now key limiter off = rw off refl

  -- A check of one identifier, at any instant, never takes away the capacity that another has at some instant, where the
  -- keys derived from the two are different.
  pub check-has_capacity :
      WalksMaps host
      → (before now : host.Instant) (key other : String) (limiter : RateLimiter host)
      → (derive host limiter.secret key == derive host limiter.secret other) ≡ false
      → has_capacity host now other limiter ≡ true
      → has_capacity host now other (check host before key limiter).1 ≡ true
  unfolding entered stored
  check-has_capacity walks before now key other limiter apart had =
      elim (Bool-cases limiter.enabled) [
        | inl on ↦
            let after = check-Swept walks before key limiter on in
            keeps_capacity now other limiter (check host before key limiter).1 on after.same_enabled
              after.same_secret after.same_capacity after.same_rate
              (check-other walks before key limiter (derive host limiter.secret other) on apart) had
        | inr off ↦
            subst (λ x. has_capacity host now other x.1 ≡ true)
              (sym (check_disabled before key limiter off)) had
      ]

  pub check_keeps_secret :
      WalksMaps host
      → (now : host.Instant) (key : String) (limiter : RateLimiter host)
      → (check host now key limiter).1.secret ≡ limiter.secret
  unfolding entered stored
  check_keeps_secret walks now key limiter = elim (Bool-cases limiter.enabled) [
    | inl on ↦ (check-Swept walks now key limiter on).same_secret
    | inr off ↦ ap (λ x. x.1.secret) (check_disabled now key limiter off)
  ]
