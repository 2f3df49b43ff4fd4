-- ===== src/Cron/Stuck.antt =====
-- Steps that are not positive.
use caspaste.Prelude.{
  ℕ, zero, suc, ◌+◌, ◌-◌, ◌≤◌, ◌<◌, ◌≡◌, refl, ap, ◌∙◌, true, some, List, [], ◌∷◌, Text, text_eq,
  codes, lacks, split_on-lacks, split_on-append, arith,
}
use caspaste.Prelude.Int.{ℤ, pos, negsuc}
use caspaste.Cron.Parse.{
  ok, panic, out_of_fuel, ◌>>=◌, Parsed, count_up, push, stride, step_values, step_value, step_part,
  parse_part, parse_parts, not_empty, parse_field,
}
use caspaste.Prelude.Numbers.{atoi}

-- The field that takes every `step`th value.
abbrev pub every_nth : Text → Text
every_nth step = b'*' ∷ b'/' ∷ step

stride-zero : (fuel : ℕ) (v : ℕ) (vs : List ℕ) → stride fuel (v ∷ vs) (pos 0) ≡ out_of_fuel
unfolding stride
stride-zero zero v vs = refl
stride-zero (suc fuel) v vs = rw (stride-zero fuel v vs) refl

step_part-every_nth :
    (fuel : ℕ) (step : Text) (lo hi : ℕ)
    → lacks b'/' step ≡ true
    → parse_part fuel (every_nth step) lo hi ≡ step_value fuel (codes "*") (atoi step) lo hi
unfolding parse_part step_part
step_part-every_nth fuel step lo hi h =
    ap (λ ps. step_part fuel ps lo hi)
      (split_on-append b'/' (codes "*") step refl
        ∙ ap (◌∷◌ (codes "*")) (split_on-lacks b'/' step h))

-- The loop over all values, of which there is at least one.
EndsIn : ℕ → ℤ → Parsed → Type 0
EndsIn fuel step r = (v : ℕ) (vs : List ℕ) → stride fuel (v ∷ vs) step ≡ r

Fails : Parsed → Type 0
Fails r = (f : List ℕ → Parsed) → (r >>= f) ≡ r

all_values : (lo n : ℕ) → 0 < n → (v : ℕ) × (vs : List ℕ) × (count_up lo n ≡ v ∷ vs)
all_values lo zero h = absurd (omega arith)
all_values lo (suc n) h = (lo, count_up (lo + 1) n, refl)

step_value-all :
    (fuel : ℕ) (step : ℤ) (lo hi : ℕ) (r : Parsed)
    → lo ≤ hi
    → EndsIn fuel step r
    → step_value fuel (codes "*") (some step) lo hi ≡ r
unfolding step_value step_values EndsIn text_eq
step_value-all fuel step lo hi r h e =
    let (v, vs, same) = all_values lo (hi + 1 - lo) (omega arith) in
    ap (λ us. stride fuel us step) same ∙ e v vs

parse_field-every_nth :
    (fuel : ℕ) (step : Text) (z : ℤ) (lo hi : ℕ) (r : Parsed)
    → lacks b',' step ≡ true
    → lacks b'/' step ≡ true
    → atoi step ≡ some z
    → lo ≤ hi
    → EndsIn fuel z r
    → Fails r
    → parse_field fuel (every_nth step) lo hi ≡ r
unfolding parse_field parse_parts Fails
parse_field-every_nth fuel step z lo hi r c s e h ends fails =
    let part : parse_part fuel (every_nth step) lo hi ≡ r =
      step_part-every_nth fuel step lo hi s
      ∙ ap (λ v. step_value fuel (codes "*") v lo hi) e
      ∙ step_value-all fuel z lo hi r h ends in
    ap (λ ps. parse_parts fuel ps lo hi >>= not_empty) (split_on-lacks b',' (every_nth step) c)
    ∙ ap (λ q. (q >>= λ vs. push vs (ok [])) >>= not_empty) part
    ∙ ap (λ q. q >>= not_empty) (fails _)
    ∙ fails not_empty

-- A field `*/n` whose step is read as 0 is not parsed with any fuel: the loop adds the step to its
-- index and never comes to an end.
pub parse_field_hangs :
    (fuel : ℕ) (step : Text) (lo hi : ℕ)
    → lacks b',' step ≡ true
    → lacks b'/' step ≡ true
    → atoi step ≡ some (pos 0)
    → lo ≤ hi
    → parse_field fuel (every_nth step) lo hi ≡ out_of_fuel
unfolding EndsIn Fails
parse_field_hangs fuel step lo hi c s e h =
    parse_field-every_nth fuel step (pos 0) lo hi out_of_fuel c s e h (stride-zero fuel) (λ f. refl)

-- A field `*/n` whose step is read as a negative number ends in a panic: the second round of the
-- loop reads the values at a negative index.
pub parse_field_panics :
    (fuel n : ℕ) (step : Text) (lo hi : ℕ)
    → lacks b',' step ≡ true
    → lacks b'/' step ≡ true
    → atoi step ≡ some (negsuc n)
    → lo ≤ hi
    → parse_field (suc fuel) (every_nth step) lo hi ≡ panic
unfolding EndsIn Fails stride
parse_field_panics fuel n step lo hi c s e h =
    parse_field-every_nth (suc fuel) step (negsuc n) lo hi panic c s e h (λ v vs. refl) (λ f. refl)
