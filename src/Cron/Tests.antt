-- ===== src/Cron/Tests.antt =====
-- Expressions that are parsed and run, and the theorems at concrete inputs.
use caspaste.Prelude.{
  ℕ, ◌+◌, ◌*◌, ◌/◌, ◌%◌, ◌≡◌, ◌≢◌, refl, sym, ap, ◌∙◌, Option, none, some, List, [], ◌∷◌, Text,
  codes, arith, All, split_on,
}
use caspaste.Prelude.Int.{ℤ, pos}
use caspaste.Cron.Parse.{
  Schedule, at, ok, err, panic, out_of_fuel, parse_cron, parse_field, parse_range, stride,
  invalid_field, weekday_field, value_out_of_range, field_count, invalid_duration, range_reversed,
}
use caspaste.Prelude.Numbers.{atoi}
use caspaste.Cron.Fields.{Within, parse_field-Within}
use caspaste.Cron.Expressions.{IsValid, parse_cron-IsValid}
use caspaste.Cron.Next.{Moment, minutes}
use caspaste.Cron.Steps.{parse_field-Returns, HasPositiveStep, Returns}
use caspaste.Cron.Stuck.{every_nth, parse_field_hangs, parse_field_panics}

abbrev no_durations : Text → Option ℤ
no_durations t = none

abbrev nightly : Schedule
nightly = record {
  minute = 30 ∷ [];
  hour = 3 ∷ [];
  day = 1 ∷ 11 ∷ 21 ∷ 31 ∷ [];
  month = 1 ∷ 2 ∷ 12 ∷ [];
  weekday = 5 ∷ [];
}

parses : parse_cron no_durations 60 (codes " 30 3 */10 1-2,12 5") ≡ ok (at nightly)
unfolding parse_cron split_on atoi stride parse_range
parses = refl

predefined_daily :
    parse_cron no_durations 60 (codes "@daily") ≡ parse_cron no_durations 60 (codes "0 0 * * *")
unfolding parse_cron split_on atoi stride parse_range
predefined_daily = refl

weekday_7 :
    parse_cron no_durations 60 (codes "0 0 * * 7")
    ≡ err (invalid_field weekday_field value_out_of_range)
unfolding parse_cron split_on atoi stride parse_range
weekday_7 = refl

four_fields : parse_cron no_durations 60 (codes "0 0 * *") ≡ err field_count
unfolding parse_cron split_on atoi stride parse_range
four_fields = refl

no_duration : parse_cron no_durations 60 (codes "@every week") ≡ err invalid_duration
unfolding parse_cron split_on atoi stride parse_range
no_duration = refl

reversed : parse_field 60 (codes "1,5-3") 0 6 ≡ err range_reversed
unfolding parse_field split_on atoi parse_range
reversed = refl

-- Every month has 30 days, and every year twelve of them.
abbrev calendar : ℕ → Moment
calendar t = record {
  minute = t / minutes % 60;
  hour = t / (60 * minutes) % 24;
  day = t / (1440 * minutes) % 30 + 1;
  month = t / (30 * 1440 * minutes) % 12 + 1;
  weekday = t / (1440 * minutes) % 7;
}

parse_cron-IsValid_example : IsValid nightly
parse_cron-IsValid_example =
    parse_cron-IsValid no_durations 60 (codes " 30 3 */10 1-2,12 5") nightly parses

abbrev days : List ℕ
days = 5 ∷ 1 ∷ 2 ∷ 3 ∷ []

parsed_list : parse_field 60 (codes "5,1-3") 0 6 ≡ ok days
unfolding parse_field split_on atoi parse_range
parsed_list = refl

parse_field-Within_example : (days ≢ []) × All (Within 0 6) days
parse_field-Within_example =
    parse_field-Within 60 (codes "5,1-3") 0 6 days (omega arith) parsed_list

quarter : HasPositiveStep (codes "*/15")
unfolding split_on atoi
quarter a b z s e =
    let word : codes "15" ≡ b = cc in
    let number : some (pos 15) ≡ some z = ap atoi word ∙ e in
    let same : pos 15 ≡ z = cc in rw (sym same) refl

parse_field-Returns_example : Returns (parse_field 60 (codes "*/15") 0 59)
unfolding split_on
parse_field-Returns_example = parse_field-Returns 60 (codes "*/15") 0 59 (quarter, tt) (omega arith)

parse_field_hangs_example : parse_field 1000 (every_nth (codes "00")) 0 59 ≡ out_of_fuel
unfolding atoi
parse_field_hangs_example = parse_field_hangs 1000 (codes "00") 0 59 refl refl refl (omega arith)

parse_field_panics_run : parse_field 1 (every_nth (codes "-2")) 0 59 ≡ panic
unfolding atoi
parse_field_panics_run = parse_field_panics 0 1 (codes "-2") 0 59 refl refl refl (omega arith)
