-- ===== src/Cron/Expressions.antt =====
-- What an expression that parses holds.
use caspaste.Prelude.{
  ℕ, ◌≡◌, ◌≢◌, refl, sym, Bool, true, false, if◌then◌else◌, Option, none, some, List, [], ◌∷◌, Text,
  All, arith, has_prefix, codes, drop,
}
use caspaste.Prelude.Int.{ℤ}
use caspaste.Cron.Parse.{
  Field, Error, Run, ok, err, panic, out_of_fuel, ◌>>=◌, Parsed, Schedule, CronExpr, every, at,
  in_field, with_duration, predefined, parse_words, parse_field, parse_cron,
}
use caspaste.Prelude.Numbers.{trim_space, fields}
use caspaste.Cron.Fields.{Within, parse_field-Within}

abbrev pub Values : ℕ → ℕ → List ℕ → Type 0
Values lo hi vs = (vs ≢ []) × All (Within lo hi) vs

pub record IsValid (c : Schedule) : Type 0 where
  pub minutes : Values 0 59 c.minute
  pub hours : Values 0 23 c.hour
  pub days : Values 1 31 c.day
  pub months : Values 1 12 c.month
  pub weekdays : Values 0 6 c.weekday

abbrev Valid : Run Error CronExpr → Type 0
Valid (ok (every d)) = Unit
Valid (ok (at c)) = IsValid c
Valid (err e) = Unit
Valid panic = Unit
Valid out_of_fuel = Unit

bind-Valid :
    (f : Field) (lo hi : ℕ) (r : Parsed) (next : List ℕ → Run Error CronExpr)
    → ((vs : List ℕ) → r ≡ ok vs → Values lo hi vs)
    → ((vs : List ℕ) → Values lo hi vs → Valid (next vs))
    → Valid (in_field f r >>= next)
bind-Valid f lo hi (ok vs) next values valid = valid vs (values vs refl)
bind-Valid f lo hi (err e) next values valid = tt
bind-Valid f lo hi panic next values valid = tt
bind-Valid f lo hi out_of_fuel next values valid = tt

parse_words-Valid : (fuel : ℕ) (ws : List Text) → Valid (parse_words fuel ws)
unfolding parse_words
parse_words-Valid fuel [] = tt
parse_words-Valid fuel (a ∷ []) = tt
parse_words-Valid fuel (a ∷ b ∷ []) = tt
parse_words-Valid fuel (a ∷ b ∷ c ∷ []) = tt
parse_words-Valid fuel (a ∷ b ∷ c ∷ d ∷ []) = tt
parse_words-Valid fuel (a ∷ b ∷ c ∷ d ∷ e ∷ []) =
    bind-Valid _ 0 59 (parse_field fuel a 0 59) _
      (λ vs. parse_field-Within fuel a 0 59 vs (omega arith))
      (λ minute m.
        bind-Valid _ 0 23 (parse_field fuel b 0 23) _
          (λ vs. parse_field-Within fuel b 0 23 vs (omega arith))
          (λ hour h.
            bind-Valid _ 1 31 (parse_field fuel c 1 31) _
              (λ vs. parse_field-Within fuel c 1 31 vs (omega arith))
              (λ day n.
                bind-Valid _ 1 12 (parse_field fuel d 1 12) _
                  (λ vs. parse_field-Within fuel d 1 12 vs (omega arith))
                  (λ month o.
                    bind-Valid _ 0 6 (parse_field fuel e 0 6) _
                      (λ vs. parse_field-Within fuel e 0 6 vs (omega arith))
                      (λ weekday w. record {
                        minutes = m;
                        hours = h;
                        days = n;
                        months = o;
                        weekdays = w;
                      })))))
parse_words-Valid fuel (a ∷ b ∷ c ∷ d ∷ e ∷ f ∷ ws) = tt

if-Valid : (b : Bool) (r q : Run Error CronExpr) → Valid r → Valid q → Valid (if b then r else q)
if-Valid true r q s t = s
if-Valid false r q s t = t

with_duration-Valid : (d : Option ℤ) → Valid (with_duration d)
with_duration-Valid none = tt
with_duration-Valid (some d) = tt

same-Valid : {r q : Run Error CronExpr} → r ≡ q → Valid r → Valid q
same-Valid e v = rw (sym e) v

module _ (parse_duration : Text → Option ℤ) where
  parse_cron-Valid : (fuel : ℕ) (expr : Text) → Valid (parse_cron parse_duration fuel expr)
  unfolding parse_cron
  parse_cron-Valid fuel expr =
      if-Valid (has_prefix (codes "@every ") (trim_space expr)) _ _
        (with_duration-Valid (parse_duration (drop 7 (trim_space expr))))
        (parse_words-Valid fuel (fields (predefined (trim_space expr))))

  -- A cron expression that parses to five lists gives each field at least one value, and only values
  -- that the field can have.
  pub parse_cron-IsValid :
      (fuel : ℕ) (expr : Text) (c : Schedule)
      → parse_cron parse_duration fuel expr ≡ ok (at c)
      → IsValid c
  parse_cron-IsValid fuel expr c e = same-Valid e (parse_cron-Valid fuel expr)
