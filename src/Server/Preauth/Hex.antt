-- ===== src/Server/Preauth/Hex.antt =====
-- Bytes in lower-case hexadecimal: `{b:02x}` in `generate_sdk_key` of routes/sdk_key.rs and in `encode_hex` of
-- crates/flaps-store/src/hash.rs.
use Prim.Native.Char.{Char, code}
use Prim.Native.String.{String, [], ◌∷◌, ◌++◌}
use Prim.Native.String.append
use mathlib.Core.List.{List}
use flaps.Prelude.{
  ℕ, zero, suc, ◌*◌, ◌/◌, ◌%◌, ◌<◌, ◌≡◌, refl, ap, ◌∙◌, Bool, true, false, ◌&&◌, length, arith,
  lt→ltb,
}
use flaps.Prelude.Text.{as_bytes, utf8, chars}
use flaps.Server.Preauth.{all_hex, is_hex}

char_at : ℕ → String → Char
char_at n [] = "f"
char_at zero (c ∷ s) = c
char_at (suc n) (c ∷ s) = char_at n s

-- The digit of a number below 16.
unfoldable pub hex_digit : ℕ → Char
unfolding char_at
hex_digit n = char_at n "0123456789abcdef"

unfoldable pub encode_hex : List ℕ → String
unfolding hex_digit
encode_hex List.[] = ""
encode_hex (List.◌∷◌ b bytes) = hex_digit (b / 16) ∷ hex_digit (b % 16) ∷ encode_hex bytes

and_true : (a b : Bool) → (a && b) ≡ true → (a ≡ true) × (b ≡ true)
and_true true b h = (refl, h)
and_true false b h = cc

char_at-is_hex : (n : ℕ) (s : String) → all_hex (chars s) ≡ true → is_hex (char_at n s) ≡ true
unfolding char_at all_hex chars is_hex
char_at-is_hex n [] h = refl
char_at-is_hex zero (c ∷ s) h = (and_true _ _ h).0
char_at-is_hex (suc n) (c ∷ s) h = char_at-is_hex n s (and_true _ _ h).1

hex_digit-is_hex : (n : ℕ) → is_hex (hex_digit n) ≡ true
unfolding hex_digit all_hex chars is_hex
hex_digit-is_hex n = char_at-is_hex n "0123456789abcdef" refl

pub all_hex-encode_hex : (bytes : List ℕ) → all_hex (chars (encode_hex bytes)) ≡ true
unfolding encode_hex all_hex chars
all_hex-encode_hex List.[] = refl
all_hex-encode_hex (List.◌∷◌ b bytes) =
    rw (hex_digit-is_hex (b / 16), hex_digit-is_hex (b % 16)) (all_hex-encode_hex bytes)

is_hex-lt : (c : Char) → is_hex c ≡ true → code c < 0x80
unfolding is_hex
is_hex-lt c h = ground arith

utf8-is_hex : (c : Char) → is_hex c ≡ true → utf8 (code c) ≡ List.◌∷◌ (code c) List.[]
unfolding utf8
utf8-is_hex c h = rw (lt→ltb (code c) 0x80 (is_hex-lt c h)) refl

-- Two bytes of text for each byte.
pub length-encode_hex : (bytes : List ℕ) → length (as_bytes (encode_hex bytes)) ≡ length bytes * 2
unfolding encode_hex as_bytes
length-encode_hex List.[] = refl
length-encode_hex (List.◌∷◌ b bytes) =
    rw
      (
        utf8-is_hex (hex_digit (b / 16)) (hex_digit-is_hex (b / 16)),
        utf8-is_hex (hex_digit (b % 16)) (hex_digit-is_hex (b % 16)),
      )
      (omega (arith, length-encode_hex bytes))

-- A text of two characters, one of one and a third, in a row.
pub spelled : (a b c : Char) (s : String) → (a ∷ b ∷ []) ++ ((c ∷ []) ++ s) ≡ a ∷ b ∷ c ∷ s
spelled a b c s =
    append.cons a (b ∷ []) _
    ∙ ap (λ x. a ∷ x) (append.cons b [] _)
    ∙ ap (λ x. a ∷ b ∷ x) (append.nil _ ∙ append.cons c [] s ∙ ap (λ x. c ∷ x) (append.nil s))
