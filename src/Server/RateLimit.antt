-- ===== src/Server/RateLimit.antt =====
-- crates/flaps-server/src/rate_limit.rs and preauth/limiter_key.rs: a bucket of tokens for each derived key. The
-- clock, the MAC and the order in which a `HashMap` is walked are the `Host`'s; a test-only `check_at` is `check`.
pub mod Table
pub mod Sweep
pub mod Admission
use flaps.Prelude.{
  ℕ, zero, suc, ◌+◌, ◌-◌, ◌%◌, ◌^◌, String, Bool, true, false, Option, none, some, List, [], ◌∷◌,
  Result, ok, err, if◌then◌else◌, ltb, length, take, ◌==◌,
}
use flaps.Prelude.Map
use flaps.Prelude.Map.{BTreeMap}
use flaps.Prelude.Text.{str_take}
use flaps.Numbers.{Numbers}

module _ ⦃num : Numbers⦄ where
  pub record Bucket (Instant : Type 0) : Type 0 where
    pub tokens : num.F64
    pub last_refill : Instant

  -- What the limiter uses of the standard library and of `hmac`.
  pub record Host : Type 1 where
    pub Instant : Type 0
    -- `now.duration_since(earlier).as_secs_f64()`
    pub seconds_since : Instant → Instant → num.F64
    -- `x.ceil() as u64`
    pub ceil_u64 : num.F64 → ℕ
    -- HMAC-SHA256 of a message under a secret, a character for each byte
    pub hmac_sha256 : String → String → String
    -- the entries of a map in the order in which `iter` walks it
    pub iter : BTreeMap (Bucket Instant) → List (String × Bucket Instant)

  pub record RateLimitConfig : Type 0 where
    pub enabled : Bool
    pub capacity : ℕ
    pub refill_per_second : num.F64

  -- The secret of the deriver stands in its place.
  pub record RateLimiter (host : Host) : Type 0 where
    pub enabled : Bool
    pub capacity : num.F64
    pub refill_per_second : num.F64
    pub max_buckets : ℕ
    pub secret : String
    pub buckets : BTreeMap (Bucket host.Instant)
    pub swept_bucket_scans : ℕ

abbrev pub max_buckets_default : ℕ
max_buckets_default = 100000

abbrev pub eviction_sample_size : ℕ
eviction_sample_size = 16

abbrev pub derived_key_bytes : ℕ
derived_key_bytes = 16

-- `HashMap::remove`
unfoldable pub remove {ℓ} : {V : Type ℓ} → String → BTreeMap V → BTreeMap V
remove key [] = []
remove key ((other, value) ∷ rest) =
    let removed = remove key rest in if other == key then removed else (other, value) ∷ removed

module _ ⦃num : Numbers⦄ (host : Host) where
  -- `LimiterKeyDeriver::derive`: the first bytes of the MAC.
  unfoldable pub derive : String → String → String
  derive secret identifier = str_take derived_key_bytes (host.hmac_sha256 secret identifier)

  -- `RateLimiter::new`, with the secret that the deriver draws.
  unfoldable pub new : RateLimitConfig → String → RateLimiter host
  new config secret = record {
    enabled = config.enabled;
    capacity = num.of_nat config.capacity;
    refill_per_second = config.refill_per_second;
    max_buckets = max_buckets_default;
    secret = secret;
    buckets = [];
    swept_bucket_scans = 0;
  }

  unfoldable pub tokens_at : Bucket host.Instant → host.Instant → num.F64 → num.F64 → num.F64
  tokens_at bucket now capacity refill_per_second =
      num.min
        (num.add bucket.tokens
          (num.mul (host.seconds_since now bucket.last_refill) refill_per_second))
        capacity

  -- The fullest of the entries and the one before them.
  unfoldable pub fullest_from :
      (Bucket host.Instant → num.F64)
      → Option (String × num.F64)
      → BTreeMap (Bucket host.Instant)
      → Option (String × num.F64)
  fullest_from level best [] = best
  fullest_from level none ((key, bucket) ∷ rest) =
      fullest_from level (some (key, level bucket)) rest
  fullest_from level (some (found, best)) ((key, bucket) ∷ rest) =
      fullest_from level
        (if num.lt best (level bucket) then some (key, level bucket) else some (found, best)) rest

  -- One round of `sweep`: the fullest bucket of the sample goes, and the scans are counted.
  unfoldable pub evict : host.Instant → RateLimiter host → Option (RateLimiter host)
  unfolding fullest_from tokens_at remove
  evict now limiter =
      let sample = take eviction_sample_size (host.iter limiter.buckets) in
      let counted = (limiter.swept_bucket_scans + length sample) % 2 ^ 64 in
      elim (fullest_from (λ b. tokens_at b now limiter.capacity limiter.refill_per_second) none
        sample) [
          | none ↦ none
          | some (key, tokens) ↦ some (record limiter {
            buckets = remove key limiter.buckets;
            swept_bucket_scans = counted;
          })
        ]

  -- The loop of `sweep`, on fuel.
  unfoldable pub sweep : ℕ → host.Instant → RateLimiter host → RateLimiter host
  unfolding evict
  sweep zero now limiter = limiter
  sweep (suc fuel) now limiter = elim (ltb limiter.max_buckets (length limiter.buckets)) [
    | true ↦ elim (evict now limiter) [ none ↦ limiter | some left ↦ sweep fuel now left ]
    | false ↦ limiter
  ]

  -- The token that a request takes, or how long it has to wait.
  unfoldable pub spend : num.F64 → num.F64 → Result ℕ (Unit {0}) × num.F64
  spend refill_per_second tokens =
      if num.le (num.of_nat 1) tokens
      then (ok tt, num.sub tokens (num.of_nat 1))
      else (err (host.ceil_u64 (num.div (num.sub (num.of_nat 1) tokens) refill_per_second)), tokens)

  unfoldable pub bucket_or_full :
      host.Instant → num.F64 → Option (Bucket host.Instant) → Bucket host.Instant
  bucket_or_full now capacity none = record { tokens = capacity; last_refill = now }
  bucket_or_full now capacity (some bucket) = bucket

  -- The tokens of a key's bucket, refilled, in a bucket that is made for a new key.
  unfoldable pub refilled : host.Instant → String → RateLimiter host → num.F64
  unfolding tokens_at bucket_or_full
  refilled now key limiter =
      tokens_at (bucket_or_full now limiter.capacity (Map.get key limiter.buckets)) now
        limiter.capacity limiter.refill_per_second

  unfoldable pub stored : host.Instant → String → num.F64 → RateLimiter host → RateLimiter host
  stored now key tokens limiter = record limiter {
    buckets = Map.insert key (record { tokens = tokens; last_refill = now }) limiter.buckets;
  }

  unfoldable pub swept : host.Instant → RateLimiter host → RateLimiter host
  unfolding sweep
  swept now limiter = sweep (length limiter.buckets) now limiter

  -- `check` and `check_at`, where the lock is held from the lookup to the end.
  unfoldable pub check :
      host.Instant → String → RateLimiter host → Result ℕ (Unit {0}) × RateLimiter host
  unfolding derive spend refilled stored swept
  check now identifier limiter =
      let key = derive limiter.secret identifier in
      let (result, left) = spend limiter.refill_per_second (refilled now key limiter) in
      if limiter.enabled
      then (result, swept now (stored now key left limiter))
      else (ok tt, limiter)

  unfoldable pub level_of : host.Instant → RateLimiter host → Option (Bucket host.Instant) → Bool
  unfolding tokens_at
  level_of now limiter none = true
  level_of now limiter (some bucket) =
      num.le (num.of_nat 1) (tokens_at bucket now limiter.capacity limiter.refill_per_second)

  unfoldable pub has_capacity : host.Instant → String → RateLimiter host → Bool
  unfolding level_of derive
  has_capacity now identifier limiter =
      if limiter.enabled
      then level_of now limiter (Map.get (derive limiter.secret identifier) limiter.buckets)
      else true
