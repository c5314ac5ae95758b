-- ===== src/Eval/Custom.antt =====
-- The operators `starts_with` and `ends_with` of crates/flaps-eval/src/string_comparison.rs, and
-- `sem_ver` of crates/flaps-eval/src/semver.rs.
use Prim.Native.Char.{code}
use flaps.Prelude.{String, Bool, not, ◌&&◌, ◌||◌, Option, none, some, ok, ◌>>=◌, eqb, if◌then◌else◌}
use flaps.Prelude.Text
use flaps.Json.{null, bool, string}
use flaps.Numbers.{Numbers}
use flaps.Versions.{Versions}
use flaps.Eval.Targeting.{SemVerOp, eq, neq, lt, lte, gt, gte, caret_match, tilde_match}
use flaps.Eval.Coerce.{JsonValue}
use flaps.Eval.Errors.{Evaluated, Evaluator}

pub data Affix : Type 0 where
  prefix suffix : Affix

abbrev has_affix : Affix → String → String → Bool
has_affix prefix haystack needle = Text.has_prefix haystack needle
has_affix suffix haystack needle = Text.has_suffix haystack needle

-- `strip_prefix(['v', 'V']).unwrap_or(raw)`
unfoldable pub strip_v : String → String
strip_v String.[] = String.[]
strip_v (String.◌∷◌ c s) = if eqb (code c) b'v' || eqb (code c) b'V' then s else String.◌∷◌ c s

module _ ⦃num : Numbers⦄ where
  unfoldable pub compare_affix : Affix → JsonValue → JsonValue → JsonValue
  compare_affix affix (string haystack) (string needle) = bool (has_affix affix haystack needle)
  compare_affix affix l r = null

  unfoldable pub eval_string_comparison :
      Affix → Evaluator → Evaluator → JsonValue → Evaluated JsonValue
  unfolding compare_affix
  eval_string_comparison affix left right d = do
    l ← left d
    r ← right d
    ok (compare_affix affix l r)

module _ ⦃num : Numbers⦄ ⦃ver : Versions⦄ where
  open ver use {Version, major, minor}

  -- The order of `semver::Version` is total: `lhs <= rhs` is `lhs < rhs || lhs == rhs`.
  unfoldable pub compare_versions : SemVerOp → Version → Version → Bool
  compare_versions eq a b = ver.eq a b
  compare_versions neq a b = not (ver.eq a b)
  compare_versions lt a b = ver.lt a b
  compare_versions lte a b = ver.lt a b || ver.eq a b
  compare_versions gt a b = ver.lt b a
  compare_versions gte a b = ver.lt b a || ver.eq a b
  compare_versions caret_match a b = eqb (major a) (major b)
  compare_versions tilde_match a b = eqb (major a) (major b) && eqb (minor a) (minor b)

  unfoldable pub parse_version : String → Option Version
  unfolding strip_v
  parse_version raw = ver.parse (strip_v raw)

  both_versions : SemVerOp → Option Version → Option Version → JsonValue
  unfolding compare_versions
  both_versions op (some a) (some b) = bool (compare_versions op a b)
  both_versions op (some a) none = null
  both_versions op none b = null

  unfoldable pub sem_ver_values : SemVerOp → JsonValue → JsonValue → JsonValue
  unfolding both_versions parse_version
  sem_ver_values op (string a) (string b) = both_versions op (parse_version a) (parse_version b)
  sem_ver_values op l r = null

  unfoldable pub eval_sem_ver : Evaluator → SemVerOp → Evaluator → JsonValue → Evaluated JsonValue
  unfolding sem_ver_values
  eval_sem_ver value op version d = do l ← value d; r ← version d; ok (sem_ver_values op l r)
