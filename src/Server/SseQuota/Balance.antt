-- ===== src/Server/SseQuota/Balance.antt =====
-- In every order of the steps the permits that are free and those that are held make up the limits.
use flaps.Prelude.{
  ℕ, zero, suc, ◌+◌, ◌^◌, ◌≤◌, ◌<◌, ◌≡◌, refl, ◌∙◌, subst, String, ◌==◌, eq_iff, Bool, true, false,
  Option, none, some, List, [], ◌∷◌, ◌++◌, arith, Bool-cases, inl, inr, if◌then◌else◌,
}
use flaps.Prelude.Map.Laws.{get-insert, get-insert-other}
use flaps.Server.SseQuota.{
  SseQuota, SseQuotaConfig, try_acquire_owned, permits, permits_or, ensure_key, set_permits,
  count_rejected, count_active, count_closed, release_global, release_key,
}
use flaps.Server.SseQuota.Threads.{
  Phase, reserved, found, refused, unwinding, admitted, live, closing, closing_key, Thread, System,
  advance, take_key, moved,
}

abbrev one_if : Bool → ℕ
one_if true = 1
one_if false = 0

abbrev pub has_global : Phase → ℕ
has_global closing_key = 0
has_global phase = 1

abbrev pub has_key : Phase → ℕ
has_key admitted = 1
has_key live = 1
has_key closing = 1
has_key closing_key = 1
has_key phase = 0

abbrev pub is_live : Phase → ℕ
is_live live = 1
is_live phase = 0

-- How many requests hold a global permit, how many a permit of a key, and how many are streaming.
abbrev pub globals : List Thread → ℕ
globals [] = 0
globals (t ∷ ts) = has_global t.phase + globals ts

abbrev pub of_key : String → String → ℕ → ℕ
of_key key other n = if other == key then n else 0

abbrev pub keys : String → List Thread → ℕ
keys key [] = 0
keys key (t ∷ ts) = of_key key t.key (has_key t.phase) + keys key ts

abbrev pub lives : List Thread → ℕ
lives [] = 0
lives (t ∷ ts) = is_live t.phase + lives ts

pub globals-append : (xs ys : List Thread) → globals (xs ++ ys) ≡ globals xs + globals ys
globals-append [] ys = omega arith
globals-append (x ∷ xs) ys = omega (arith, globals-append xs ys)

pub keys-append :
    (key : String) (xs ys : List Thread) → keys key (xs ++ ys) ≡ keys key xs + keys key ys
keys-append key [] ys = omega arith
keys-append key (x ∷ xs) ys = omega (arith, keys-append key xs ys)

pub lives-append : (xs ys : List Thread) → lives (xs ++ ys) ≡ lives xs + lives ys
lives-append [] ys = omega arith
lives-append (x ∷ xs) ys = omega (arith, lives-append xs ys)

pub lives-le-globals : (ts : List Thread) → lives ts ≤ globals ts
lives-le-globals [] = omega arith
lives-le-globals (t ∷ ts) = omega (arith, le_phase t.phase, lives-le-globals ts)
  where
    le_phase : (p : Phase) → is_live p ≤ has_global p
    le_phase reserved = omega arith
    le_phase found = omega arith
    le_phase refused = omega arith
    le_phase unwinding = omega arith
    le_phase admitted = omega arith
    le_phase live = omega arith
    le_phase closing = omega arith
    le_phase closing_key = omega arith

-- The permits of a key after the permits of another are set.
pub permits-set :
    (k j : String) (n : ℕ) (q : SseQuota)
    → permits j (set_permits k n q) ≡ (if k == j then n else permits j q)
unfolding permits set_permits permits_or
permits-set k j n q = elim (Bool-cases (k == j)) [
  | inl same ↦ rw (same, ← (eq_iff k j).0 same, get-insert k n q.per_key) refl
  | inr other ↦ rw (other, get-insert-other k j n q.per_key other) refl
]

-- What is free and what is held are the limits, and the counter counts the streams.
pub record Balanced (config : SseQuotaConfig) (s : System) : Type 0 where
  pub global : s.quota.global + globals s.threads ≡ config.max_global
  pub per_key : (key : String) → permits key s.quota + keys key s.threads ≡ config.max_per_key
  pub counted : s.quota.active_subscriptions ≡ lives s.threads

pub take_suc : (n left : ℕ) → try_acquire_owned n ≡ some left → n ≡ suc left
unfolding try_acquire_owned
take_suc zero left e = cc
take_suc (suc n) left e = cc

-- One access of a request, with what it holds before and after.
pub record Trades (phase : Phase) (key : String) (q : SseQuota) (after : Option Phase × SseQuota)
    : Type 0 where
  pub global : after.1.global + globals (moved after.0 key) ≡ q.global + has_global phase
  pub per_key :
      (j : String)
      → permits j after.1 + keys j (moved after.0 key) ≡ permits j q + of_key j key (has_key phase)
  pub counted :
      (n : ℕ)
      → q.active_subscriptions ≡ n + is_live phase
      → n + is_live phase + 1 < 2 ^ 64
      → after.1.active_subscriptions ≡ n + lives (moved after.0 key)

pub set_self : (key : String) (n : ℕ) (q : SseQuota) → permits key (set_permits key n q) ≡ n
set_self key n q = rw (permits-set key key n q, (eq_iff key key).1 refl) refl

-- The permits of a key are what they were, where only the key's own are written.
pub permits-ensure_key :
    (key j : String) (q : SseQuota) → permits j (ensure_key key q) ≡ permits j q
unfolding ensure_key
permits-ensure_key key j q = elim (Bool-cases (key == j)) [
  | inl same ↦
      subst (λ x. permits x (set_permits key (permits key q) q) ≡ permits x q)
        ((eq_iff key j).0 same) (set_self key (permits key q) q)
  | inr other ↦ permits-set key j (permits key q) q ∙ rw other refl
]

pub permits-take :
    (key j : String) (left : ℕ) (q : SseQuota)
    → permits key q ≡ suc left
    → permits j (set_permits key left q) + of_key j key 1 ≡ permits j q
permits-take key j left q h = elim (Bool-cases (key == j)) [
  | inl same ↦ rw (permits-set key j left q, same, ← (eq_iff key j).0 same) (omega arith)
  | inr other ↦ rw (permits-set key j left q, other) (omega arith)
]

pub permits-release_key :
    (key j : String) (q : SseQuota) → permits j (release_key key q) ≡ permits j q + of_key j key 1
unfolding release_key
permits-release_key key j q = elim (Bool-cases (key == j)) [
  | inl same ↦ rw (permits-set key j (permits key q + 1) q, same, (eq_iff key j).0 same) refl
  | inr other ↦ rw (permits-set key j (permits key q + 1) q, other) (omega arith)
]

pub of_key-zero : (key j : String) → of_key j key 0 ≡ 0
of_key-zero key j = ground arith

found-Trades :
    (key : String) (q : SseQuota) (free : Option ℕ)
    → try_acquire_owned (permits key q) ≡ free
    → Trades found key q (some (take_key key free q).0, (take_key key free q).1)
unfolding take_key moved set_permits
found-Trades key q none e = record {
  global = refl;
  per_key = λ j. omega (arith, of_key-zero key j);
  counted = λ n e h. omega arith;
}
found-Trades key q (some left) e = record {
  global = refl;
  per_key = λ j.
      omega (arith, of_key-zero key j, permits-take key j left q (take_suc (permits key q) left e));
  counted = λ n e h. omega arith;
}

pub advance-Trades :
    (phase : Phase) (key : String) (q : SseQuota) → Trades phase key q (advance phase key q)
unfolding advance moved ensure_key count_rejected release_global count_active count_closed
    release_key permits
advance-Trades reserved key q = record {
  global = refl;
  per_key = λ j. omega (arith, permits-ensure_key key j q, of_key-zero key j);
  counted = λ n e h. omega arith;
}
advance-Trades found key q = found-Trades key q (try_acquire_owned (permits key q)) refl
advance-Trades refused key q = record {
  global = refl;
  per_key = λ j. omega (arith, of_key-zero key j);
  counted = λ n e h. omega arith;
}
advance-Trades unwinding key q = record {
  global = omega arith;
  per_key = λ j. omega (arith, of_key-zero key j);
  counted = λ n e h. omega arith;
}
advance-Trades admitted key q = record {
  global = refl;
  per_key = λ j. omega arith;
  counted = λ n e h. omega arith;
}
advance-Trades live key q = record {
  global = refl;
  per_key = λ j. omega arith;
  counted = λ n e h. omega arith;
}
advance-Trades closing key q = record {
  global = omega arith;
  per_key = λ j. omega arith;
  counted = λ n e h. omega arith;
}
advance-Trades closing_key key q = record {
  global = omega arith;
  per_key = λ j. omega (arith, permits-release_key key j q);
  counted = λ n e h. omega arith;
}
