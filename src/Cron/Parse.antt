-- ===== src/Cron/Parse.antt =====
-- `ParseCron`, `parseField` and `parseRange` of src/scheduler/cron.go.
use caspaste.Prelude.{
  ℕ, zero, suc, ◌+◌, ◌-◌, ltb, ◌||◌, not, Bool, true, false, if◌then◌else◌, Option, none, some,
  List, [], ◌∷◌, ◌++◌, Text, text_eq, codes, split_on, lacks, has_prefix, drop,
}
use caspaste.Prelude.Int.{ℤ, pos, negsuc}
use caspaste.Prelude.Numbers.{atoi, trim_space, fields}

pub data FieldError : Type 0 where
  invalid_step invalid_step_value invalid_value value_out_of_range empty_field : FieldError
  invalid_range invalid_range_start invalid_range_end range_reversed range_out_of_bounds :
      FieldError

pub data Field : Type 0 where
  minute_field hour_field day_field month_field weekday_field : Field

pub data Error : Type 0 where
  invalid_duration field_count : Error
  invalid_field : Field → FieldError → Error

-- How a call ends: with a value, with an error, with a run-time panic, or not within the fuel.
pub data Run {ℓ κ} (E : Type κ) (A : Type ℓ) : Type (ℓ ⊔ κ) where
  ok : A → Run E A
  err : E → Run E A
  panic : Run E A
  out_of_fuel : Run E A

infixl 5 ◌>>=◌
abbrev pub ◌>>=◌ {ℓ κ μ} :
    {E : Type μ} {A : Type ℓ} {B : Type κ} → Run E A → (A → Run E B) → Run E B
ok a >>= f = f a
err e >>= f = err e
panic >>= f = panic
out_of_fuel >>= f = out_of_fuel

abbrev pub Parsed : Type 0
Parsed = Run FieldError (List ℕ)

-- `n` numbers from `lo` on.
abbrev pub count_up : ℕ → ℕ → List ℕ
count_up lo zero = []
count_up lo (suc n) = lo ∷ count_up (lo + 1) n

-- A value that `Atoi` has read, held against bounds that are not negative.
abbrev pub below : ℤ → ℕ → Bool
below (pos n) lo = ltb n lo
below (negsuc n) lo = true

abbrev pub above : ℤ → ℕ → Bool
above (pos n) hi = ltb hi n
above (negsuc n) hi = false

abbrev pub to_nat : ℤ → ℕ
to_nat (pos n) = n
to_nat (negsuc n) = 0

abbrev pub greater : ℤ → ℤ → Bool
greater (pos a) (pos b) = ltb b a
greater (pos a) (negsuc b) = true
greater (negsuc a) (pos b) = false
greater (negsuc a) (negsuc b) = ltb a b

-- The checks of `parseRange` on the two numbers, and the loop that lists them.
unfoldable pub check_range : Option ℤ → Option ℤ → ℕ → ℕ → Parsed
check_range none end lo hi = err invalid_range_start
check_range (some start) none lo hi = err invalid_range_end
check_range (some start) (some end) lo hi =
    if greater start end
    then err range_reversed
    else if below start lo || above end hi
    then err range_out_of_bounds
    else ok (count_up (to_nat start) (to_nat end + 1 - to_nat start))

unfoldable pub range_parts : List Text → ℕ → ℕ → Parsed
unfolding check_range
range_parts (a ∷ b ∷ []) lo hi = check_range (atoi a) (atoi b) lo hi
range_parts _ lo hi = err invalid_range

unfoldable pub parse_range : Text → ℕ → ℕ → Parsed
unfolding range_parts
parse_range r lo hi = range_parts (split_on b'-' r) lo hi

abbrev pub push : List ℕ → Parsed → Parsed
push vs (ok ws) = ok (vs ++ ws)
push vs (err e) = err e
push vs panic = panic
push vs out_of_fuel = out_of_fuel

-- `for i := 0; i < len(vals); i += step`, from the rest of the values at `i`. A step of 0 stays
-- where it is; a negative one reads `vals[i]` at a negative index in its second round.
unfoldable pub stride : ℕ → List ℕ → ℤ → Parsed
stride fuel [] step = ok []
stride zero (v ∷ vs) step = out_of_fuel
stride (suc fuel) (v ∷ vs) (pos n) = push (v ∷ []) (stride fuel (drop n (v ∷ vs)) (pos n))
stride (suc fuel) (v ∷ vs) (negsuc n) = panic

unfoldable pub step_values : Text → ℕ → ℕ → Parsed
step_values range lo hi =
    if text_eq range (codes "*") then ok (count_up lo (hi + 1 - lo)) else parse_range range lo hi

unfoldable pub step_value : ℕ → Text → Option ℤ → ℕ → ℕ → Parsed
unfolding step_values
step_value fuel range none lo hi = err invalid_step_value
step_value fuel range (some step) lo hi = do vals ← step_values range lo hi; stride fuel vals step

unfoldable pub step_part : ℕ → List Text → ℕ → ℕ → Parsed
unfolding step_value
step_part fuel (range ∷ step ∷ []) lo hi = step_value fuel range (atoi step) lo hi
step_part fuel _ lo hi = err invalid_step

unfoldable pub single : Option ℤ → ℕ → ℕ → Parsed
single none lo hi = err invalid_value
single (some v) lo hi =
    if below v lo || above v hi then err value_out_of_range else ok (to_nat v ∷ [])

-- One comma-separated part.
unfoldable pub parse_part : ℕ → Text → ℕ → ℕ → Parsed
unfolding step_part single
parse_part fuel part lo hi =
    if not (lacks b'/' part)
    then step_part fuel (split_on b'/' part) lo hi
    else if not (lacks b'-' part)
    then parse_range part lo hi
    else single (atoi part) lo hi

-- The loop over the parts. What the parts give is appended in order.
unfoldable pub parse_parts : ℕ → List Text → ℕ → ℕ → Parsed
unfolding parse_part
parse_parts fuel [] lo hi = ok []
parse_parts fuel (p ∷ ps) lo hi =
    parse_part fuel p lo hi >>= λ vs. push vs (parse_parts fuel ps lo hi)

abbrev pub not_empty : List ℕ → Parsed
not_empty [] = err empty_field
not_empty (v ∷ vs) = ok (v ∷ vs)

-- The fuel is for the loops over step values; `lo` and `hi` are the bounds, `lo` not above `hi`.
unfoldable pub parse_field : ℕ → Text → ℕ → ℕ → Parsed
unfolding parse_parts text_eq
parse_field fuel field lo hi =
    if text_eq field (codes "*")
    then ok (count_up lo (hi + 1 - lo))
    else parse_parts fuel (split_on b',' field) lo hi >>= not_empty

pub record Schedule : Type 0 where
  pub minute : List ℕ
  pub hour : List ℕ
  pub day : List ℕ
  pub month : List ℕ
  pub weekday : List ℕ

-- `CronExpr`: with `isEvery`, or with the five lists. A duration is a number of nanoseconds.
pub data CronExpr : Type 0 where
  every : ℤ → CronExpr
  at : Schedule → CronExpr

abbrev pub in_field : Field → Parsed → Run Error (List ℕ)
in_field f (ok vs) = ok vs
in_field f (err e) = err (invalid_field f e)
in_field f panic = panic
in_field f out_of_fuel = out_of_fuel

unfoldable pub parse_words : ℕ → List Text → Run Error CronExpr
unfolding parse_field
parse_words fuel (a ∷ b ∷ c ∷ d ∷ e ∷ []) = do
  minute ← in_field minute_field (parse_field fuel a 0 59)
  hour ← in_field hour_field (parse_field fuel b 0 23)
  day ← in_field day_field (parse_field fuel c 1 31)
  month ← in_field month_field (parse_field fuel d 1 12)
  weekday ← in_field weekday_field (parse_field fuel e 0 6)
  ok (at (record { minute = minute; hour = hour; day = day; month = month; weekday = weekday }))
parse_words fuel _ = err field_count

-- The predefined expressions.
unfoldable pub predefined : Text → Text
unfolding text_eq
predefined e =
    if text_eq e (codes "@yearly") || text_eq e (codes "@annually")
    then codes "0 0 1 1 *"
    else if text_eq e (codes "@monthly")
    then codes "0 0 1 * *"
    else if text_eq e (codes "@weekly")
    then codes "0 0 * * 0"
    else if text_eq e (codes "@daily") || text_eq e (codes "@midnight")
    then codes "0 0 * * *"
    else if text_eq e (codes "@hourly")
    then codes "0 * * * *"
    else e

abbrev pub with_duration : Option ℤ → Run Error CronExpr
with_duration none = err invalid_duration
with_duration (some d) = ok (every d)

-- `time.ParseDuration` is a parameter.
module _ (parse_duration : Text → Option ℤ) where
  unfoldable pub parse_cron : ℕ → Text → Run Error CronExpr
  unfolding parse_words predefined has_prefix trim_space fields
  parse_cron fuel expr =
      let e = trim_space expr in
      if has_prefix (codes "@every ") e
      then with_duration (parse_duration (drop 7 e))
      else parse_words fuel (fields (predefined e))
