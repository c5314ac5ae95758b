-- ===== src/Eval/Murmur/Bounds.antt =====
-- Every value of the hash is a `u32`, and a bucket lies below the total weight.
use Prim.Native.Nat.{digits, differ, bit_xor-bitwise}
use native.Mathlib.Nat.{pow-suc}
use flaps.Prelude.{ℕ, zero, suc, ◌*◌, ◌/◌, ◌%◌, ◌^◌, ◌≤◌, ◌<◌, String, List, bit_xor, arith}
use flaps.Prelude.Text.{as_bytes}
use flaps.Eval.Murmur.{wrapping_mul, finalize, murmur3_x86_32, murmur3_bucket}

abbrev xor_digits : ℕ → ℕ → ℕ → ℕ
xor_digits n a b = digits (λ y. y) differ n a b

differ-le-one : (a b : ℕ) → a ≤ 1 → b ≤ 1 → differ a b ≤ 1
differ-le-one zero b h k = k
differ-le-one (suc a) zero h k = h
differ-le-one (suc a) (suc b) h k = differ-le-one a b (omega arith) (omega arith)

xor_digits-lt : (n k a b : ℕ) → a < 2 ^ k → b < 2 ^ k → xor_digits n a b < 2 ^ k
xor_digits-lt zero k a b h h' = h'
xor_digits-lt (suc n) k zero b h h' = h'
xor_digits-lt (suc n) zero (suc a) b h h' = absurd (omega arith)
xor_digits-lt (suc n) (suc k) (suc a) b h h' = omega (
  arith,
  pow-suc 2 k,
  xor_digits-lt n k (suc a / 2) (b / 2) (omega (arith, pow-suc 2 k)) (omega (arith, pow-suc 2 k)),
  differ-le-one (suc a % 2) (b % 2) (omega arith) (omega arith),
)

pub bit_xor-lt : (k a b : ℕ) → a < 2 ^ k → b < 2 ^ k → bit_xor a b < 2 ^ k
bit_xor-lt k a b h h' = simp bit_xor-bitwise (xor_digits-lt a k a b h h')

pub murmur3-lt : (bytes : List ℕ) (seed : ℕ) → murmur3_x86_32 bytes seed < 2 ^ 32
unfolding murmur3_x86_32 finalize wrapping_mul
murmur3-lt bytes seed = bit_xor-lt 32 _ _ (omega arith) (omega arith)

scaled-lt : (h t : ℕ) → h < 2 ^ 32 → 0 < t → h * t < 2 ^ 32 * t
scaled-lt h t p q = grind arith

-- A bucket lies below the total weight, also where the product wraps.
pub bucket-lt-total : (value : String) (t : ℕ) → 0 < t → murmur3_bucket value t < t
unfolding murmur3_bucket
bucket-lt-total value t h = omega (arith, scaled-lt _ t (murmur3-lt (as_bytes value) 0) h)

-- A bucket is a `u32`, however large the total weight is.
pub bucket-lt_word : (value : String) (t : ℕ) → murmur3_bucket value t < 2 ^ 32
unfolding murmur3_bucket
bucket-lt_word value t = omega arith
