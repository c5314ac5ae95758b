-- ===== src/Examples/Hosts.antt =====
-- A stand-in for the clock, the MAC and the maps of the server: seconds, the identifier itself, and the order of the list.
use flaps.Prelude.{
  ℕ, ◌-◌, ◌≡◌, refl, String, none, some, [], ◌∷◌, All, ◌==◌, eq_iff, true, Bool-cases, inl, inr,
}
use flaps.Prelude.Int.{pos, pos_part}
use flaps.Prelude.Map
use flaps.Prelude.Map.{BTreeMap}
use flaps.Server.RateLimit.{Bucket, Host, RateLimitConfig, RateLimiter}
use flaps.Server.RateLimit.Table.{WalksMaps}
use flaps.Examples.Stubs.{integers, integer}

abbrev pub seconds : Host
seconds = record {
  Instant = ℕ;
  seconds_since = λ now earlier. some (pos (now - earlier));
  ceil_u64 = λ x. pos_part (integer x);
  hmac_sha256 = λ secret identifier. identifier;
  iter = λ m. m;
}

Found : BTreeMap (Bucket ℕ) → (String × Bucket ℕ) → Type 0
Found m entry = Map.get entry.0 m ≡ none → ⊥

Found-behind :
    (k : String) (b : Bucket ℕ) (m entries : BTreeMap (Bucket ℕ))
    → All (Found m) entries
    → All (Found ((k, b) ∷ m)) entries
unfolding Found Map.get
Found-behind k b m [] all = tt
Found-behind k b m ((j, c) ∷ entries) (found, all) = (behind, Found-behind k b m entries all)
  where
    behind : Map.get j ((k, b) ∷ m) ≡ none → ⊥
    behind = elim (Bool-cases (k == j)) [
      | inl same ↦ rw same (λ e. cc)
      | inr other ↦ rw other found
    ]

All-Found : (m : BTreeMap (Bucket ℕ)) → All (Found m) m
unfolding Found Map.get
All-Found [] = tt
All-Found ((k, b) ∷ m) = (first, Found-behind k b m m (All-Found m))
  where
    first : Map.get k ((k, b) ∷ m) ≡ none → ⊥
    first = rw ((eq_iff k k).1 refl) (λ e. cc)

pub seconds-WalksMaps : WalksMaps seconds
unfolding Found
seconds-WalksMaps = record { iter-length = λ m. refl; iter_found = All-Found }

abbrev pub one_each : RateLimitConfig
one_each = record { enabled = true; capacity = 1; refill_per_second = some (pos 1) }

abbrev pub full_table : RateLimiter seconds
full_table = record {
  enabled = true;
  capacity = some (pos 1);
  refill_per_second = some (pos 1);
  max_buckets = 2;
  secret = "s";
  buckets =
      ("alice", record { tokens = some (pos 0); last_refill = 0 })
      ∷ ("bob", record { tokens = some (pos 0); last_refill = 5 })
      ∷ [];
  swept_bucket_scans = 0;
}
