-- ===== src/Server/RateLimit/Sweep.antt =====
-- The loop that keeps the table of buckets within its limit.
use flaps.Prelude.{
  ℕ, zero, suc, ◌+◌, ◌-◌, ◌*◌, ◌%◌, ◌^◌, ◌≤◌, ◌<◌, ◌≡◌, refl, ap, ◌∙◌, String, Option, none, ltb,
  ltb→lt, length, ◌==◌, eq_iff, arith, Bool-cases, inl, inr, ◌⊎◌,
}
use flaps.Prelude.Map
use flaps.Prelude.Map.{BTreeMap}
use flaps.Numbers.{Numbers}
use flaps.Server.RateLimit.{Bucket, Host, RateLimiter, sweep}
use flaps.Server.RateLimit.Table.{
  length-remove-lt, get-remove, get-remove-other, evict_cases, WalksMaps, Evicted,
}

module _ ⦃num : Numbers⦄ (host : Host) where
  -- Of a limiter before and after a sweep: the table is within its limit and no larger, an entry is unchanged or
  -- gone, and the scans grow by at most a sample for every entry above the limit.
  pub record Swept (before after : RateLimiter host) : Type 0 where
    pub bounded : length after.buckets ≤ before.max_buckets
    pub smaller : length after.buckets ≤ length before.buckets
    pub kept :
        (key : String)
        → (Map.get key after.buckets ≡ Map.get key before.buckets)
          ⊎ (Map.get key after.buckets ≡ none)
    pub scanned : ℕ
    pub scanned_bound : scanned ≤ 16 * (length before.buckets - before.max_buckets)
    pub scans : after.swept_bucket_scans % 2 ^ 64 ≡ (before.swept_bucket_scans + scanned) % 2 ^ 64
    pub same_capacity : after.capacity ≡ before.capacity
    pub same_rate : after.refill_per_second ≡ before.refill_per_second
    pub same_enabled : after.enabled ≡ before.enabled
    pub same_secret : after.secret ≡ before.secret
    pub same_max : after.max_buckets ≡ before.max_buckets

  no_round :
      (limiter : RateLimiter host)
      → length limiter.buckets ≤ limiter.max_buckets
      → Swept limiter limiter
  no_round limiter h = record {
    bounded = h;
    smaller = omega arith;
    kept = λ k. inl refl;
    scanned = 0;
    scanned_bound = omega arith;
    scans = omega arith;
    same_capacity = refl;
    same_rate = refl;
    same_enabled = refl;
    same_secret = refl;
    same_max = refl;
  }

  Evicted-lt :
      (limiter left : RateLimiter host)
      → Evicted host limiter left
      → length left.buckets < length limiter.buckets
  Evicted-lt limiter left evicted = omega (
    arith,
    ap (λ x. length x.buckets) evicted.is_left,
    length-remove-lt evicted.key limiter.buckets evicted.there,
  )

  Evicted-get :
      (limiter left : RateLimiter host)
      → Evicted host limiter left
      → (key : String)
      → (Map.get key left.buckets ≡ Map.get key limiter.buckets) ⊎ (Map.get key left.buckets ≡ none)
  Evicted-get limiter left evicted key = elim (Bool-cases (evicted.key == key)) [
    | inl same ↦ inr (
        ap (λ x. Map.get key x.buckets) evicted.is_left
        ∙ rw (← (eq_iff evicted.key key).0 same) (get-remove evicted.key limiter.buckets))
    | inr other ↦ inl (
        ap (λ x. Map.get key x.buckets) evicted.is_left
        ∙ get-remove-other evicted.key key limiter.buckets other)
  ]

  kept_before :
      {b l a : Option (Bucket host.Instant)}
      → (l ≡ b) ⊎ (l ≡ none)
      → (a ≡ l) ⊎ (a ≡ none)
      → (a ≡ b) ⊎ (a ≡ none)
  kept_before first (inr gone) = inr gone
  kept_before (inl same) (inl also) = inl (also ∙ same)
  kept_before (inr gone) (inl also) = inr (also ∙ gone)

  after_round :
      (limiter left after : RateLimiter host)
      → limiter.max_buckets < length limiter.buckets
      → Evicted host limiter left
      → Swept left after
      → Swept limiter after
  after_round limiter left after over evicted rest = record {
    bounded = omega (arith, rest.bounded, ap (λ x. x.max_buckets) evicted.is_left);
    smaller = omega (arith, rest.smaller, Evicted-lt limiter left evicted);
    kept = λ key. kept_before (Evicted-get limiter left evicted key) (rest.kept key);
    scanned = evicted.sampled + rest.scanned;
    scanned_bound = omega (
      arith,
      rest.scanned_bound,
      evicted.sample_bound,
      over,
      ap (λ x. x.max_buckets) evicted.is_left,
      Evicted-lt limiter left evicted,
    );
    scans = omega (arith, rest.scans, ap (λ x. x.swept_bucket_scans) evicted.is_left);
    same_capacity = rest.same_capacity ∙ ap (λ x. x.capacity) evicted.is_left;
    same_rate = rest.same_rate ∙ ap (λ x. x.refill_per_second) evicted.is_left;
    same_enabled = rest.same_enabled ∙ ap (λ x. x.enabled) evicted.is_left;
    same_secret = rest.same_secret ∙ ap (λ x. x.secret) evicted.is_left;
    same_max = rest.same_max ∙ ap (λ x. x.max_buckets) evicted.is_left;
  }

  impossible : (m n : ℕ) → m < n → n ≡ 0 → ⊥
  impossible m n h e = omega (arith, h, e)

  -- The loop ends with fuel for each entry.
  pub sweep-Swept :
      WalksMaps host
      → (fuel : ℕ) (now : host.Instant) (limiter : RateLimiter host) → length limiter.buckets ≤ fuel
      → Swept limiter (sweep host fuel now limiter)
  unfolding sweep
  sweep-Swept walks zero now limiter h = no_round limiter (omega (arith, h))
  sweep-Swept walks (suc fuel) now limiter h =
      elim (Bool-cases (ltb limiter.max_buckets (length limiter.buckets))) [
        | inl over ↦ elim (evict_cases host walks now limiter) [
          | inl (nothing, empty) ↦
              elim (impossible _ _ (ltb→lt limiter.max_buckets (length limiter.buckets) over)
                empty) [ ]
          | inr (left, found, evicted) ↦
              rw (sweep, over, found)
                (after_round limiter left (sweep host fuel now left)
                  (ltb→lt limiter.max_buckets (length limiter.buckets) over) evicted
                  (sweep-Swept walks fuel now left
                    (omega (arith, h, Evicted-lt limiter left evicted))))
        ]
        | inr within ↦ rw (sweep, within) (no_round limiter (ground (arith, within)))
      ]
