-- ===== src/Examples/Stubs.antt =====
-- Stand-ins for floats and versions: integers with one value for NaN, and versions by a number.
use flaps.Prelude.{
  ℕ, zero, suc, ◌*◌, String, Bool, true, false, not, ◌&&◌, Option, none, some, eqb, if◌then◌else◌,
}
use flaps.Prelude.Int.{ℤ, pos, negsuc, pos_part, neg_part, sub_ℕ, ◌+ℤ◌, ltb_ℤ}
use flaps.Prelude.Text.{parse_usize, show_nat}
use flaps.Numbers.{Numbers}
use flaps.Versions.{Versions}

abbrev Float : Type 0
Float = Option ℤ

abbrev opposite : ℤ → ℤ
opposite a = sub_ℕ (neg_part a) (pos_part a)

abbrev times : ℤ → ℤ → ℤ
times a b = sub_ℕ (pos_part a * pos_part b) (neg_part a * pos_part b)

abbrev same : ℤ → ℤ → Bool
same a b = eqb (pos_part a) (pos_part b) && eqb (neg_part a) (neg_part b)

abbrev unary : (ℤ → ℤ) → Float → Float
unary f none = none
unary f (some a) = some (f a)

abbrev binary : (ℤ → ℤ → ℤ) → Float → Float → Float
binary f (some a) (some b) = some (f a b)
binary f _ b = none

abbrev test : (ℤ → ℤ → Bool) → Float → Float → Bool
test f (some a) (some b) = f a b
test f _ b = false

abbrev is_number : Float → Bool
is_number none = false
is_number (some a) = true

abbrev natural : ℤ → Option ℕ
natural (pos n) = some n
natural (negsuc n) = none

abbrev pub integer : Float → ℤ
integer none = pos 0
integer (some a) = a

abbrev parsed : Option ℕ → Option Float
parsed none = none
parsed (some n) = some (some (pos n))

instance abbrev pub integers : Numbers
integers = record {
  F64 = Float;
  Number = ℤ;
  as_f64 = λ n. some (some n);
  as_u64 = natural;
  from_f64 = λ x. x;
  of_u64 = pos;
  of_i64 = λ n. n;
  of_nat = λ n. some (pos n);
  nan = none;
  big = some (pos 1000);
  add = binary ◌+ℤ◌;
  sub = binary (λ a b. a +ℤ opposite b);
  mul = binary times;
  div = binary (λ a b. a);
  rem = binary (λ a b. a);
  min = binary (λ a b. if ltb_ℤ b a then b else a);
  max = binary (λ a b. if ltb_ℤ a b then b else a);
  neg = unary opposite;
  abs = unary (λ a. pos (pos_part a));
  fract = unary (λ a. pos 0);
  trunc = λ x. x;
  eq = test same;
  lt = test ltb_ℤ;
  le = test (λ a b. not (ltb_ℤ b a));
  is_nan = λ x. not (is_number x);
  is_finite = is_number;
  to_i64 = integer;
  from_i64 = some;
  parse = λ s. parsed (parse_usize s);
  show_rounded = λ x. show_nat (pos_part (integer x));
  show = λ x. show_nat (pos_part (integer x));
}

instance abbrev pub plain_versions : Versions
plain_versions = record {
  Version = ℕ;
  parse = parse_usize;
  major = λ n. n;
  minor = λ n. 0;
  eq = eqb;
  lt = λ a b. flaps.Prelude.ltb a b;
}
