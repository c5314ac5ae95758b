-- ===== src/Eval/Murmur.antt =====
-- `murmur3_x86_32` and `murmur3_bucket` of crates/flaps-eval/src/fractional.rs, over bytes. A `u32` is a
-- number below 2 ^ 32, and every operation wraps as Rust's.
pub mod Bounds
use flaps.Prelude.{
  ℕ, ◌+◌, ◌-◌, ◌*◌, ◌/◌, ◌%◌, ◌^◌, String, ◌≡◌, refl, List, [], ◌∷◌, bit_xor, length,
}
use flaps.Prelude.Text.{as_bytes}

wrapping_mul : ℕ → ℕ → ℕ
wrapping_mul a b = (a * b) % 2 ^ 32

wrapping_add : ℕ → ℕ → ℕ
wrapping_add a b = (a + b) % 2 ^ 32

rotate_left : ℕ → ℕ → ℕ
rotate_left a k = (a * 2 ^ k) % 2 ^ 32 + a % 2 ^ 32 / 2 ^ (32 - k)

c1 : ℕ
c1 = 0xcc9e_2d51

c2 : ℕ
c2 = 0x1b87_3593

-- The scrambling of four bytes, or of the tail.
scramble : ℕ → ℕ
unfolding wrapping_mul rotate_left c1 c2
scramble k = wrapping_mul (rotate_left (wrapping_mul k c1) 15) c2

mix : ℕ → ℕ → ℕ
unfolding scramble wrapping_add wrapping_mul rotate_left
mix hash k = wrapping_add (wrapping_mul (rotate_left (bit_xor hash (scramble k)) 13) 5) 0xe654_6b64

-- The chunks of four bytes, and then the tail: no byte leaves the hash as it is.
mix_chunks : ℕ → List ℕ → ℕ
unfolding mix scramble
mix_chunks hash (b0 ∷ b1 ∷ b2 ∷ b3 ∷ rest) =
    mix_chunks (mix hash (b0 + b1 * 2 ^ 8 + b2 * 2 ^ 16 + b3 * 2 ^ 24)) rest
mix_chunks hash (b0 ∷ b1 ∷ b2 ∷ []) =
    bit_xor hash (scramble (bit_xor (bit_xor (b2 * 2 ^ 16) (b1 * 2 ^ 8)) b0))
mix_chunks hash (b0 ∷ b1 ∷ []) = bit_xor hash (scramble (bit_xor (b1 * 2 ^ 8) b0))
mix_chunks hash (b0 ∷ []) = bit_xor hash (scramble b0)
mix_chunks hash [] = hash

-- `hash ^= hash >> shift; hash = hash.wrapping_mul(factor)`
finalize : ℕ → ℕ → ℕ → ℕ
unfolding wrapping_mul
finalize shift factor hash = wrapping_mul (bit_xor hash (hash / 2 ^ shift)) factor

unfoldable pub murmur3_x86_32 : List ℕ → ℕ → ℕ
unfolding mix_chunks finalize
murmur3_x86_32 bytes seed =
    let mixed = bit_xor (mix_chunks seed bytes) (length bytes % 2 ^ 32) in
    let hash = finalize 13 0xc2b2_ae35 (finalize 16 0x85eb_ca6b mixed) in
    bit_xor hash (hash / 2 ^ 16)

-- `(u64::from(hash) * total_weight) >> 32`, whose product wraps in a release build.
unfoldable pub murmur3_bucket : String → ℕ → ℕ
unfolding murmur3_x86_32 as_bytes
murmur3_bucket value total_weight =
    (murmur3_x86_32 (as_bytes value) 0 * total_weight) % 2 ^ 64 / 2 ^ 32

vectors :
    (murmur3_x86_32 [] 0 ≡ 0)
    × (murmur3_x86_32 (as_bytes "hello") 0 ≡ 0x248b_fa47)
    × (murmur3_x86_32 (as_bytes "headerColoruser:abc") 0 ≡ 1_681_433_475)
    × (murmur3_x86_32 (as_bytes "headerColorbucketeerix@example.com") 0 ≡ 2_591_899_404)
    × (murmur3_x86_32 (as_bytes "foo") 0 ≡ 4_138_058_784)
unfolding murmur3_x86_32 as_bytes
vectors = (refl, refl, refl, refl, refl)
