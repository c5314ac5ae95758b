-- ===== src/Prelude/Text.antt =====
-- What the program uses of Rust's `str`: the native `String` walked by its characters.
use Prim.Native.Nat.{ℕ, zero, suc, ◌+◌, ◌-◌, ◌*◌, ◌/◌, ◌%◌, ◌^◌, Ordering}
use Prim.Native.Char.{Char, code}
use Prim.Native.String.{String, compare, [], ◌∷◌, ◌++◌}
use mathlib.Core.Path.{◌≡◌, refl}
use mathlib.Core.Bool.{Bool, true, false, ◌&&◌, ◌||◌}
use mathlib.Core.Option.{Option, none, some}
use mathlib.Core.List
use mathlib.Core.List.{List}
use flaps.Prelude.Tests.{ltb, leb, eqb, if◌then◌else◌}

-- `a < b` and `a <= b` on `str`: by bytes, which is by code points.
abbrev pub str_lt : String → String → Bool
str_lt a b = elim (compare a b) [ Ordering.lt ↦ true | _ ↦ false ]

abbrev pub str_le : String → String → Bool
str_le a b = elim (compare a b) [ Ordering.gt ↦ false | _ ↦ true ]

abbrev pub is_empty : String → Bool
is_empty [] = true
is_empty (c ∷ s) = false

-- `char::is_ascii_lowercase`, `is_ascii_digit`.
abbrev pub is_lower : Char → Bool
is_lower c = leb b'a' (code c) && leb (code c) b'z'

abbrev pub is_digit : Char → Bool
is_digit c = leb b'0' (code c) && leb (code c) b'9'

-- `char::is_whitespace`: Unicode's White_Space.
abbrev pub is_whitespace : Char → Bool
is_whitespace c =
    let n = code c in
    leb 9 n && leb n 13
    || eqb n 0x20
    || eqb n 0x85
    || eqb n 0xa0
    || eqb n 0x1680
    || leb 0x2000 n && leb n 0x200a
    || eqb n 0x2028
    || eqb n 0x2029
    || eqb n 0x202f
    || eqb n 0x205f
    || eqb n 0x3000

unfoldable pub trim_start : String → String
trim_start [] = []
trim_start (c ∷ s) = let rest = trim_start s in if is_whitespace c then rest else c ∷ s

unfoldable pub trim_end : String → String
trim_end [] = []
trim_end (c ∷ s) = elim (trim_end s) [
  | [] ↦ if is_whitespace c then [] else c ∷ []
  | d ∷ t ↦ c ∷ d ∷ t
]

unfoldable pub trim : String → String
unfolding trim_start trim_end
trim s = trim_end (trim_start s)

-- `str::starts_with`, `ends_with`, `contains`.
unfoldable pub has_prefix : String → String → Bool
has_prefix s [] = true
has_prefix [] (d ∷ t) = false
has_prefix (c ∷ s) (d ∷ t) = eqb (code c) (code d) && has_prefix s t

pub str_eq : String → String → Bool
str_eq [] [] = true
str_eq (c ∷ s) (d ∷ t) = eqb (code c) (code d) && str_eq s t
str_eq _ _ = false

unfoldable pub has_suffix : String → String → Bool
unfolding str_eq
has_suffix [] t = is_empty t
has_suffix (c ∷ s) t = str_eq (c ∷ s) t || has_suffix s t

unfoldable pub contains : String → String → Bool
unfolding has_prefix
contains [] t = is_empty t
contains (c ∷ s) t = has_prefix (c ∷ s) t || contains s t

-- `str::split('.')`: the segments, at least one.
abbrev put_first : Char → List String → List String
put_first c List.[] = List.◌∷◌ (c ∷ []) List.[]
put_first c (List.◌∷◌ s rest) = List.◌∷◌ (c ∷ s) rest

unfoldable pub split_dots : String → List String
split_dots [] = List.◌∷◌ [] List.[]
split_dots (c ∷ s) =
    let rest = split_dots s in if eqb (code c) b'.' then List.◌∷◌ [] rest else put_first c rest

-- `str::parse::<usize>`, on a 64 bit target: digits behind an optional `+`, below 2 ^ 64.
digits_value : ℕ → String → Option ℕ
digits_value n [] = some n
digits_value n (c ∷ s) =
    let rest = digits_value (n * 10 + (code c - b'0')) s in if is_digit c then rest else none

below_2^64 : Option ℕ → Option ℕ
below_2^64 none = none
below_2^64 (some n) = if ltb n (2 ^ 64) then some n else none

nonempty_value : String → Option ℕ
unfolding digits_value below_2^64
nonempty_value [] = none
nonempty_value (c ∷ s) = below_2^64 (digits_value 0 (c ∷ s))

unfoldable pub parse_usize : String → Option ℕ
unfolding nonempty_value
parse_usize [] = none
parse_usize (c ∷ s) = if eqb (code c) b'+' then nonempty_value s else nonempty_value (c ∷ s)

-- `{n}` of a natural number, in decimal. A number has fewer digits than its value plus one.
digit : ℕ → String
digit n =
    if eqb n 0
    then "0"
    else if eqb n 1
    then "1"
    else if eqb n 2
    then "2"
    else if eqb n 3
    then "3"
    else if eqb n 4
    then "4"
    else if eqb n 5
    then "5"
    else if eqb n 6
    then "6"
    else if eqb n 7
    then "7"
    else if eqb n 8
    then "8"
    else "9"

digits_of : ℕ → ℕ → String → String
unfolding digit
digits_of zero n acc = acc
digits_of (suc fuel) n acc =
    let more = digits_of fuel (n / 10) (digit (n % 10) ++ acc) in
    if ltb n 10 then digit n ++ acc else more

unfoldable pub show_nat : ℕ → String
unfolding digits_of
show_nat n = digits_of (suc n) n []

-- `as_bytes`: the UTF-8 encoding of each character.
unfoldable pub utf8 : ℕ → List ℕ
utf8 n =
    if ltb n 0x80
    then one n
    else if ltb n 0x800
    then List.◌∷◌ (0xc0 + n / 64) (one (0x80 + n % 64))
    else if ltb n 0x10000
    then List.◌∷◌ (0xe0 + n / 4096) (List.◌∷◌ (0x80 + n / 64 % 64) (one (0x80 + n % 64)))
    else List.◌∷◌ (0xf0 + n / 262144)
        (List.◌∷◌ (0x80 + n / 4096 % 64) (List.◌∷◌ (0x80 + n / 64 % 64) (one (0x80 + n % 64))))
  where
    one : ℕ → List ℕ
    one b = List.◌∷◌ b List.[]

unfoldable pub as_bytes : String → List ℕ
unfolding utf8
as_bytes [] = List.[]
as_bytes (c ∷ s) = List.◌++◌ (utf8 (code c)) (as_bytes s)

-- `join(",")`.
unfoldable pub join : String → List String → String
join sep List.[] = []
join sep (List.◌∷◌ s List.[]) = s
join sep (List.◌∷◌ s (List.◌∷◌ t rest)) = s ++ (sep ++ join sep (List.◌∷◌ t rest))

-- `chars().collect::<Vec<char>>()` and back.
unfoldable pub chars : String → List Char
chars [] = List.[]
chars (c ∷ s) = List.◌∷◌ c (chars s)

unfoldable pub of_chars : List Char → String
of_chars List.[] = []
of_chars (List.◌∷◌ c cs) = c ∷ of_chars cs

tests :
    (show_nat 0 ≡ "0")
    × (show_nat 1203 ≡ "1203")
    × (trim " a b " ≡ "a b")
    × (parse_usize "+12" ≡ some 12)
    × (parse_usize "18446744073709551616" ≡ none)
    × (split_dots "a..b" ≡ List.◌∷◌ "a" (List.◌∷◌ "" (List.◌∷◌ "b" List.[])))
    × (has_suffix "abc" "bc" ≡ true)
    × (contains "abc" "bd" ≡ false)
unfolding show_nat trim parse_usize split_dots has_suffix contains
tests = (refl, refl, refl, refl, refl, refl, refl, refl)

-- The first characters of a text, what follows them, and how many there are.
abbrev pub str_take : ℕ → String → String
str_take zero s = []
str_take (suc n) [] = []
str_take (suc n) (c ∷ s) = c ∷ str_take n s

abbrev pub str_drop : ℕ → String → String
str_drop zero s = s
str_drop (suc n) [] = []
str_drop (suc n) (c ∷ s) = str_drop n s
