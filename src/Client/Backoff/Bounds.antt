-- ===== src/Client/Backoff/Bounds.antt =====
-- How long the delays are.
use flaps.Prelude.{
  ℕ, ◌+◌, ◌-◌, ◌*◌, ◌%◌, ◌^◌, ◌≤◌, ◌<◌, ◌≡◌, refl, Bool-cases, inl, inr, ◌⊎◌, eqb, arith,
}
use native.Mathlib.Nat.{mod-lt, mul-le-mul_left, pow-le-pow_right}
use flaps.Client.Backoff.{JitterFn, Backoff, smaller, ceil_nanos, delay_nanos, next_delay}

smaller-le : (a b : ℕ) → (smaller a b ≤ a) × (smaller a b ≤ b)
smaller-le a b = ground arith

smaller_mono : (a b c : ℕ) → a ≤ b → smaller a c ≤ smaller b c
smaller_mono a b c h = ground arith

delay-lt : (ceil drawn : ℕ) → (delay_nanos ceil drawn < ceil) ⊎ (delay_nanos ceil drawn ≡ 0)
unfolding delay_nanos
delay-lt ceil drawn = elim (Bool-cases (eqb ceil 0)) [
  | inl empty ↦ rw empty (inr refl)
  | inr positive ↦
      rw positive (inl (bounded (drawn % ceil) (mod-lt drawn (ground (arith, positive)))))
]
  where
    bounded : (r : ℕ) → r < ceil → r % 2 ^ 64 < ceil
    bounded r h = omega (arith, h)

-- A delay is below the base times two to the number of attempts since the last reset, at most thirty, and below the longest
-- delay; or it is zero.
pub next_delay-lt :
    {jitter : JitterFn} (b : Backoff jitter)
    → ((next_delay b).0 ≡ 0)
      ⊎ (((next_delay b).0 < b.base * 2 ^ smaller b.attempt 30) × ((next_delay b).0 < b.max))
unfolding next_delay ceil_nanos
next_delay-lt {jitter} b =
    elim (delay-lt (ceil_nanos b.base b.max b.attempt) (jitter.draw b.state).0) [
      | inl short ↦ inr (limited (b.base * 2 ^ smaller b.attempt 30) b.max _ short)
      | inr nothing ↦ inl nothing
    ]
  where
    limited : (a m d : ℕ) → d < smaller (smaller a (2 ^ 128 - 1)) m → (d < a) × (d < m)
    limited a m d h = (
      omega (arith, h, (smaller-le (smaller a (2 ^ 128 - 1)) m).0, (smaller-le a (2 ^ 128 - 1)).0),
      omega (arith, h, (smaller-le (smaller a (2 ^ 128 - 1)) m).1),
    )

-- The ceiling of the delays never falls from one attempt to the next.
pub ceil_nanos_mono :
    (base max attempt : ℕ) → ceil_nanos base max attempt ≤ ceil_nanos base max (attempt + 1)
unfolding ceil_nanos
ceil_nanos_mono base max attempt = smaller_mono _ _ max (
    smaller_mono _ _ (2 ^ 128 - 1) (
      mul-le-mul_left base
        (pow-le-pow_right (omega arith) (smaller_mono attempt (attempt + 1) 30 (omega arith)))))
