-- ===== src/Eval/Coerce/Prefix.antt =====
-- `numeric_prefix` of crates/flaps-eval/src/logic.rs. The bytes that it passes over are ASCII, so it
-- is read over the characters.
use Prim.Native.Nat.{ℕ, zero, suc, ◌+◌}
use Prim.Native.Char.{code}
use Prim.Native.String.{String, [], ◌∷◌}
use mathlib.Core.Path.{◌≡◌, refl}
use mathlib.Core.Bool.{◌&&◌, ◌||◌}
use flaps.Prelude.{eqb, if◌then◌else◌}
use flaps.Prelude.Text.{is_digit}

abbrev take_chars : ℕ → String → String
take_chars zero s = []
take_chars (suc n) [] = []
take_chars (suc n) (c ∷ s) = c ∷ take_chars n s

abbrev drop_chars : ℕ → String → String
drop_chars zero s = s
drop_chars (suc n) [] = []
drop_chars (suc n) (c ∷ s) = drop_chars n s

-- The loops `while bytes.get(end).is_some_and(u8::is_ascii_digit)`.
count_digits : String → ℕ
count_digits [] = 0
count_digits (c ∷ s) = let n = count_digits s in if is_digit c then suc n else 0

-- One at a first character that is one of two, and zero otherwise.
starts_with_one_of : ℕ → ℕ → String → ℕ
starts_with_one_of a b [] = 0
starts_with_one_of a b (c ∷ s) = if eqb (code c) a || eqb (code c) b then 1 else 0

-- The length of a fraction: a dot and digits, or nothing.
fraction : String → ℕ
unfolding count_digits
fraction [] = 0
fraction (c ∷ s) = if eqb (code c) b'.' then suc (count_digits s) else 0

-- The length of an exponent: `e`, an optional sign and digits, or nothing where there are no digits.
exponent : String → ℕ
unfolding count_digits starts_with_one_of
exponent [] = 0
exponent (c ∷ s) =
    let sign = starts_with_one_of b'+' b'-' s in
    let digits = count_digits (drop_chars sign s) in
    if eqb (code c) b'e' || eqb (code c) b'E'
    then (if eqb digits 0 then 0 else suc (sign + digits))
    else 0

unfoldable pub numeric_prefix : String → String
unfolding count_digits starts_with_one_of fraction exponent
numeric_prefix s =
    let sign = starts_with_one_of b'+' b'-' s in
    let whole = count_digits (drop_chars sign s) in
    let point = fraction (drop_chars (sign + whole) s) in
    let mantissa = sign + whole + point in
    if eqb whole 0 && eqb point 0 || eqb whole 0 && eqb point 1
    then []
    else take_chars (mantissa + exponent (drop_chars mantissa s)) s

tests :
    (numeric_prefix "-1.5e3x" ≡ "-1.5e3")
    × (numeric_prefix "12.e+" ≡ "12.")
    × (numeric_prefix ".x" ≡ "")
    × (numeric_prefix "+.5" ≡ "+.5")
unfolding numeric_prefix
tests = (refl, refl, refl, refl)
