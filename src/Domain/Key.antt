-- ===== src/Domain/Key.antt =====
-- crates/flaps-domain/src/key.rs: the check of the five key types, which `define_key!` makes alike. A key is
-- its text.
use Prim.Native.Char.{Char, code}
use Prim.Native.String.{String, [], ◌∷◌}
use flaps.Prelude.{Bool, true, false, ◌||◌, not, ok, err, ◌>>◌, eqb, if◌then◌else◌}
use flaps.Prelude.Text.{is_lower, is_digit}
use flaps.Domain.Errors.{Checked, invalid_key}

abbrev pub is_dash : Char → Bool
is_dash c = eqb (code c) b'-'

abbrev pub is_word : Char → Bool
is_word c = is_lower c || is_digit c

-- The loop over the characters behind the first, with `prev_was_dash`. True where it returns no error.
unfoldable pub scan : Bool → String → Bool
scan prev_was_dash [] = not prev_was_dash
scan prev_was_dash (c ∷ s) =
    let after_dash = scan true s in
    let after_word = scan false s in
    if is_dash c
    then (if prev_was_dash then false else after_dash)
    else if is_word c
    then after_word
    else false

first_then_scan : String → Bool
unfolding scan
first_then_scan [] = false
first_then_scan (c ∷ s) = if is_lower c then scan false s else false

unfoldable pub validate_kebab : String → Checked (Unit {0})
unfolding first_then_scan
validate_kebab value = if first_then_scan value then ok tt else err (invalid_key value)

-- `$name::new`, and `try_from`.
unfoldable pub new : String → Checked String
unfolding validate_kebab
new value = do validate_kebab value; ok value
