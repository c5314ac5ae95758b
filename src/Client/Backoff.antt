-- ===== src/Client/Backoff.antt =====
-- crates/flaps-client/src/backoff.rs: the delays between attempts to connect, in nanoseconds.
pub mod Bounds
use flaps.Prelude.{ℕ, ◌+◌, ◌-◌, ◌*◌, ◌/◌, ◌%◌, ◌^◌, Bool, leb, eqb, if◌then◌else◌, bit_xor}

abbrev pub smaller : ℕ → ℕ → ℕ
smaller a b = if leb a b then a else b

-- `JitterFn`: what draws a number, with the state that it closes over.
pub record JitterFn : Type 1 where
  pub State : Type 0
  pub draw : State → ℕ × State

pub record Backoff (jitter : JitterFn) : Type 0 where
  pub base : ℕ
  pub max : ℕ
  pub attempt : ℕ
  pub state : jitter.State

-- `xorshift_jitter`, on 64-bit words.
xorshift : ℕ → ℕ
xorshift state =
    let first = bit_xor state (state * 2 ^ 13 % 2 ^ 64) in
    let second = bit_xor first (first / 2 ^ 7) in bit_xor second (second * 2 ^ 17 % 2 ^ 64)

unfoldable pub xorshift_jitter : JitterFn
unfolding xorshift
xorshift_jitter = record { State = ℕ; draw = λ state. (xorshift state, xorshift state) }

-- The seed is the clock's nanoseconds, or a constant where they are zero.
unfoldable pub seed_of : ℕ → ℕ
seed_of nanos = if eqb (nanos % 2 ^ 64) 0 then 0x9E3779B97F4A7C15 else nanos % 2 ^ 64

unfoldable pub with_jitter : (jitter : JitterFn) → ℕ → ℕ → jitter.State → Backoff jitter
with_jitter jitter base max state = record { base = base; max = max; attempt = 0; state = state }

unfoldable pub new : ℕ → ℕ → ℕ → Backoff xorshift_jitter
unfolding with_jitter seed_of xorshift_jitter
new base max nanos = with_jitter xorshift_jitter base max (seed_of nanos)

-- `saturating_mul` of `u128` and the cap.
unfoldable pub ceil_nanos : ℕ → ℕ → ℕ → ℕ
ceil_nanos base max attempt = smaller (smaller (base * 2 ^ smaller attempt 30) (2 ^ 128 - 1)) max

unfoldable pub delay_nanos : ℕ → ℕ → ℕ
delay_nanos ceil drawn = if eqb ceil 0 then 0 else drawn % ceil % 2 ^ 64

module _ {jitter : JitterFn} where
  -- The delay, and the state after it.
  unfoldable pub next_delay : Backoff jitter → ℕ × Backoff jitter
  unfolding ceil_nanos delay_nanos
  next_delay b =
      let (drawn, state) = jitter.draw b.state in
      (
        delay_nanos (ceil_nanos b.base b.max b.attempt) drawn,
        record b { attempt = smaller (b.attempt + 1) (2 ^ 32 - 1); state = state },
      )

  unfoldable pub reset : Backoff jitter → Backoff jitter
  reset b = record b { attempt = 0 }
