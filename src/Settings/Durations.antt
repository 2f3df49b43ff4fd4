-- ===== src/Settings/Durations.antt =====
-- src/cli/duration.go.
use caspaste.Prelude.{
  ℕ, ◌+◌, ◌*◌, ◌%◌, ◌^◌, leb, ◌==◌, ◌&&◌, if◌then◌else◌, Option, none, some, [], ◌∷◌, ◌++◌, Text,
}
use caspaste.Prelude.Int.{ℤ, pos, negsuc}
use caspaste.Prelude.Numbers.{atoi}
use caspaste.Form.Checks.{int64}

-- What the loop does with a byte; a byte beyond ASCII ends it with the error, as an unknown letter.
pub data Kind : Type 0 where
  blank figure letter : Kind

abbrev pub kind_of : ℕ → Kind
kind_of c = if c == b' ' then blank else if leb b'0' c && leb c b'9' then figure else letter

-- The seconds of a unit.
abbrev pub unit_of : ℕ → Option ℕ
unit_of c =
    if c == b'm'
    then some 60
    else if c == b'h'
    then some (60 * 60)
    else if c == b'd'
    then some (60 * 60 * 24)
    else if c == b'w'
    then some (60 * 60 * 24 * 7)
    else none

abbrev pub added : ℕ → Option ℤ → Option ℕ → Option ℕ
added out none unit = none
added out (some (negsuc n)) unit = none
added out (some (pos n)) none = none
added out (some (pos n)) (some unit) = some ((out + n * unit) % 2 ^ 64)

-- The loop: `out` as an unsigned number of 64 bits, and `tmp`.
unfoldable pub parse_from : ℕ → Text → Text → Option ℕ
unfolding atoi
parse_from out tmp [] = some out
parse_from out tmp (c ∷ t) = elim (kind_of c) [
  | blank ↦ parse_from out tmp t
  | figure ↦ parse_from out (tmp ++ c ∷ []) t
  | letter ↦ elim (added out (atoi tmp) (unit_of c)) [
    | none ↦ none
    | some out' ↦ parse_from out' [] t
  ]
]

abbrev pub nanoseconds : Option ℕ → Option ℤ
nanoseconds none = none
nanoseconds (some out) = some (int64 (out * 10 ^ 9 % 2 ^ 64))

-- The duration in nanoseconds; `none` is the error. The digits of `tmp` have no sign, so that
-- `strconv.ParseInt` reads what `Atoi` does.
unfoldable pub parse_duration : Text → Option ℤ
unfolding parse_from
parse_duration s = nanoseconds (parse_from 0 [] s)
