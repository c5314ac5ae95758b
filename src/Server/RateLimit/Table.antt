-- ===== src/Server/RateLimit/Table.antt =====
-- The size of the table of buckets, and what an eviction leaves of a bucket.
use flaps.Prelude.{
  ℕ, zero, suc, ◌+◌, ◌%◌, ◌^◌, ◌≤◌, ◌<◌, ◌≡◌, refl, sym, ap, ◌∙◌, String, false, Option, none, some,
  List, [], ◌∷◌, length, take, ◌==◌, eq_iff, arith, Bool-cases, Option-cases, inl, inr, ◌⊎◌, All,
  none≢some, if◌then◌else◌,
}
use mathlib.Core.Option.{some-injective}
use mathlib.Core.Path.{subst}
use Prim.Native.String.{compare}
use Prim.Native.Nat.{Ordering}
use flaps.Prelude.Map
use flaps.Prelude.Map.{BTreeMap}
use flaps.Numbers.{Numbers}
use flaps.Server.RateLimit.{
  Bucket, Host, RateLimiter, remove, fullest_from, evict, tokens_at, eviction_sample_size,
}

module _ {ℓ} {V : Type ℓ} where
  pub length-insert-le :
      (k : String) (v : V) (m : BTreeMap V) → length (Map.insert k v m) ≤ length m + 1
  unfolding Map.insert
  length-insert-le k v [] = omega arith
  length-insert-le k v ((j, w) ∷ m) = by_order (compare k j) refl (length-insert-le k v m)
    where
      by_order :
          (o : Ordering)
          → compare k j ≡ o
          → length (Map.insert k v m) ≤ length m + 1
          → length (Map.insert k v ((j, w) ∷ m)) ≤ length ((j, w) ∷ m) + 1
      by_order Ordering.lt e inner = rw (Map.insert, e) (omega arith)
      by_order Ordering.eq e inner = rw (Map.insert, e) (omega arith)
      by_order Ordering.gt e inner = rw (Map.insert, e) (omega (arith, inner))

  pub length-remove-le : (k : String) (m : BTreeMap V) → length (remove k m) ≤ length m
  unfolding remove
  length-remove-le k [] = omega arith
  length-remove-le k ((j, w) ∷ m) = elim (Bool-cases (j == k)) [
    | inl same ↦ rw same (omega (arith, length-remove-le k m))
    | inr other ↦ rw other (omega (arith, length-remove-le k m))
  ]

  pub length-remove-lt :
      (k : String) (m : BTreeMap V) → (Map.get k m ≡ none → ⊥) → length (remove k m) < length m
  unfolding remove Map.get
  length-remove-lt k [] there = elim (there refl) [ ]
  length-remove-lt k ((j, w) ∷ m) there = elim (Bool-cases (j == k)) [
    | inl same ↦ rw same (omega (arith, length-remove-le k m))
    | inr other ↦ rw other (omega (arith, length-remove-lt k m (λ absent. there (rw other absent))))
  ]

  pub get-remove : (k : String) (m : BTreeMap V) → Map.get k (remove k m) ≡ none
  unfolding remove Map.get
  get-remove k [] = refl
  get-remove k ((j, w) ∷ m) = elim (Bool-cases (j == k)) [
    | inl same ↦ rw same (get-remove k m)
    | inr other ↦ rw (other, other) (get-remove k m)
  ]

  pub get-remove-other :
      (k j : String) (m : BTreeMap V) → (k == j) ≡ false → Map.get j (remove k m) ≡ Map.get j m
  unfolding remove Map.get
  get-remove-other k j [] h = refl
  get-remove-other k j ((i, w) ∷ m) h = elim (Bool-cases (i == k)) [
    | inl same ↦ rw (same, (eq_iff i k).0 same, h) (get-remove-other k j m h)
    | inr other ↦ rw other (ap (λ x. if i == j then some w else x) (get-remove-other k j m h))
  ]

module _ ⦃num : Numbers⦄ (host : Host) where
  -- Of an iteration: it walks over as many entries as the map has, and only keys of the map.
  pub record WalksMaps : Type 0 where
    pub iter-length : (m : BTreeMap (Bucket host.Instant)) → length (host.iter m) ≡ length m
    pub iter_found :
        (m : BTreeMap (Bucket host.Instant))
        → All (λ entry. Map.get entry.0 m ≡ none → ⊥) (host.iter m)

  fullest-All :
      (P : String → Type 0) (level : Bucket host.Instant → num.F64)
      (best : Option (String × num.F64)) (sample : BTreeMap (Bucket host.Instant))
      → ((k : String) (x : num.F64) → best ≡ some (k, x) → P k)
      → All (λ entry. P entry.0) sample
      → (k : String) (x : num.F64) → fullest_from host level best sample ≡ some (k, x)
      → P k
  unfolding fullest_from
  fullest-All P level best [] found all k x e = found k x e
  fullest-All P level none ((j, b) ∷ rest) found (pj, all) k x e =
      fullest-All P level (some (j, level b)) rest
        (λ i y same. subst P (ap (λ z. z.0) (some-injective _ _ same)) pj) all k x e
  fullest-All P level (some (j, y)) ((i, b) ∷ rest) found (pi, all) k x e =
      elim (Bool-cases (num.lt y (level b))) [
        | inl more ↦
            fullest-All P level (some (i, level b)) rest
              (λ h z same. subst P (ap (λ z. z.0) (some-injective _ _ same)) pi) all k x
              (rw more at e)
        | inr less ↦ fullest-All P level (some (j, y)) rest found all k x (rw less at e)
      ]

  fullest-some :
      (level : Bucket host.Instant → num.F64) (best : String × num.F64)
      (sample : BTreeMap (Bucket host.Instant))
      → (found : String × num.F64) × (fullest_from host level (some best) sample ≡ some found)
  unfolding fullest_from
  fullest-some level best [] = (best, refl)
  fullest-some level (k, x) ((j, b) ∷ rest) = elim (Bool-cases (num.lt x (level b))) [
    | inl more ↦ rw more (fullest-some level (j, level b) rest)
    | inr less ↦ rw less (fullest-some level (k, x) rest)
  ]

  take-All : {A : Type 0} (P : A → Type 0) (n : ℕ) (xs : List A) → All P xs → All P (take n xs)
  take-All P zero xs all = tt
  take-All P (suc n) [] all = tt
  take-All P (suc n) (x ∷ xs) (px, all) = (px, take-All P n xs all)

  -- What a round leaves: an entry less, and of the rest everything as it was.
  pub record Evicted (limiter left : RateLimiter host) : Type 0 where
    pub key : String
    pub there : Map.get key limiter.buckets ≡ none → ⊥
    pub sampled : ℕ
    pub sample_bound : sampled ≤ eviction_sample_size
    pub is_left : left ≡ record limiter {
      buckets = remove key limiter.buckets;
      swept_bucket_scans = (limiter.swept_bucket_scans + sampled) % 2 ^ 64;
    }

  length-take-le : {A : Type 0} (n : ℕ) (xs : List A) → length (take n xs) ≤ n
  length-take-le zero xs = omega arith
  length-take-le (suc n) [] = omega arith
  length-take-le (suc n) (x ∷ xs) = omega (arith, length-take-le n xs)

  fullest-none :
      (level : Bucket host.Instant → num.F64) (sample : BTreeMap (Bucket host.Instant))
      → fullest_from host level none sample ≡ none
      → length sample ≡ 0
  unfolding fullest_from
  fullest-none level [] e = refl
  fullest-none level ((j, b) ∷ rest) e =
      let (found, there) = fullest-some level (j, level b) rest in
      elim (none≢some (sym e ∙ there)) [ ]

  take_none : {A : Type 0} (n : ℕ) (xs : List A) → length (take (suc n) xs) ≡ 0 → length xs ≡ 0
  take_none n [] e = refl
  take_none n (x ∷ xs) e = omega (arith, e)

  level_at : host.Instant → RateLimiter host → Bucket host.Instant → num.F64
  level_at now limiter b = tokens_at host b now limiter.capacity limiter.refill_per_second

  sample_of : RateLimiter host → BTreeMap (Bucket host.Instant)
  sample_of limiter = take eviction_sample_size (host.iter limiter.buckets)

  -- A round evicts an entry, or there is none.
  pub evict_cases :
      WalksMaps
      → (now : host.Instant) (limiter : RateLimiter host)
      → (evict host now limiter ≡ none) × (length limiter.buckets ≡ 0)
        ⊎ ((left : RateLimiter host) × (evict host now limiter ≡ some left) × Evicted limiter left)
  unfolding evict level_at sample_of
  evict_cases walks now limiter =
      elim (Option-cases (fullest_from host (level_at now limiter) none (sample_of limiter))) [
        | inl nothing ↦ inl (
          rw nothing refl,
          omega (
            arith,
            walks.iter-length limiter.buckets,
            take_none 15 (host.iter limiter.buckets)
                (fullest-none (level_at now limiter) (sample_of limiter) nothing),
          ),
        )
        | inr ((key, x), found) ↦ inr (
          _,
          rw found refl,
          record {
            key = key;
            there =
                fullest-All (λ k. Map.get k limiter.buckets ≡ none → ⊥) (level_at now limiter) none
                  (sample_of limiter) (λ k y absurd. elim (none≢some absurd) [ ])
                  (take-All (λ entry. Map.get entry.0 limiter.buckets ≡ none → ⊥)
                    eviction_sample_size (host.iter limiter.buckets)
                    (walks.iter_found limiter.buckets))
                  key x found;
            sampled = length (sample_of limiter);
            sample_bound = length-take-le eviction_sample_size (host.iter limiter.buckets);
            is_left = refl;
          },
        )
      ]
