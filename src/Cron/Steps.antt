-- ===== src/Cron/Steps.antt =====
-- Which steps the loop over step values comes to an end for.
use caspaste.Prelude.{
  ℕ, zero, suc, ◌+◌, ◌-◌, ◌≤◌, ◌≡◌, refl, Bool, true, false, if◌then◌else◌, ◌||◌, not, Option, none,
  some, List, [], ◌∷◌, Text, text_eq, codes, lacks, split_on, length, drop, All, arith,
}
use caspaste.Prelude.Int.{ℤ, pos, negsuc, ltz}
use caspaste.Cron.Parse.{
  ok, err, panic, out_of_fuel, ◌>>=◌, Parsed, count_up, below, above, to_nat, greater, check_range,
  range_parts, parse_range, push, stride, step_values, step_value, step_part, single, parse_part,
  parse_parts, not_empty, parse_field,
}
use caspaste.Prelude.Numbers.{atoi}

-- With a value or an error, and with at most `n` values.
abbrev pub Ends : ℕ → Parsed → Type 0
Ends n (ok vs) = length vs ≤ n
Ends n (err e) = Unit
Ends n panic = ⊥
Ends n out_of_fuel = ⊥

-- With a value or an error.
abbrev pub Returns : Parsed → Type 0
Returns (ok vs) = Unit
Returns (err e) = Unit
Returns panic = ⊥
Returns out_of_fuel = ⊥

length-count_up : (lo n : ℕ) → length (count_up lo n) ≡ n
length-count_up lo zero = refl
length-count_up lo (suc n) = omega (arith, length-count_up (lo + 1) n)

Ends-Returns : (n : ℕ) (r : Parsed) → Ends n r → Returns r
Ends-Returns n (ok vs) e = tt
Ends-Returns n (err x) e = tt
Ends-Returns n panic e = e
Ends-Returns n out_of_fuel e = e

push-Returns : (vs : List ℕ) (r : Parsed) → Returns r → Returns (push vs r)
push-Returns vs (ok ws) h = tt
push-Returns vs (err e) h = tt
push-Returns vs panic h = h
push-Returns vs out_of_fuel h = h

bind-Returns :
    (n : ℕ) (r : Parsed) (f : List ℕ → Parsed)
    → Ends n r
    → ((vs : List ℕ) → length vs ≤ n → Returns (f vs))
    → Returns (r >>= f)
bind-Returns n (ok vs) f e next = next vs e
bind-Returns n (err x) f e next = tt
bind-Returns n panic f e next = e
bind-Returns n out_of_fuel f e next = e

then-Returns :
    (r : Parsed) (f : List ℕ → Parsed)
    → Returns r
    → ((vs : List ℕ) → Returns (f vs))
    → Returns (r >>= f)
then-Returns (ok vs) f e next = next vs
then-Returns (err x) f e next = tt
then-Returns panic f e next = e
then-Returns out_of_fuel f e next = e

if-Ends :
    (n : ℕ) (b : Bool) (r q : Parsed)
    → (b ≡ true → Ends n r)
    → (b ≡ false → Ends n q)
    → Ends n (if b then r else q)
if-Ends n true r q s t = s refl
if-Ends n false r q s t = t refl

if-Returns : (b : Bool) (r q : Parsed) → Returns r → Returns q → Returns (if b then r else q)
if-Returns true r q s t = s
if-Returns false r q s t = t

range_length :
    (lo hi : ℕ) (start end : ℤ)
    → (below start lo || above end hi) ≡ false
    → to_nat end + 1 - to_nat start ≤ hi + 1 - lo
range_length lo hi (pos a) (pos b) h = ground arith
range_length lo hi (pos a) (negsuc b) h = ground arith
range_length lo hi (negsuc a) end h = ground arith

check_range-Ends :
    (start end : Option ℤ) (lo hi : ℕ) → Ends (hi + 1 - lo) (check_range start end lo hi)
unfolding check_range
check_range-Ends none end lo hi = tt
check_range-Ends (some start) none lo hi = tt
check_range-Ends (some start) (some end) lo hi =
    if-Ends (hi + 1 - lo) (greater start end) _ _ (λ h. tt)
      (λ g.
        if-Ends (hi + 1 - lo) (below start lo || above end hi) _ _ (λ h. tt)
          (λ h. omega (
            arith,
            length-count_up (to_nat start) (to_nat end + 1 - to_nat start),
            range_length lo hi start end h,
          )))

range_parts-Ends : (ps : List Text) (lo hi : ℕ) → Ends (hi + 1 - lo) (range_parts ps lo hi)
unfolding range_parts
range_parts-Ends [] lo hi = tt
range_parts-Ends (a ∷ []) lo hi = tt
range_parts-Ends (a ∷ b ∷ []) lo hi = check_range-Ends (atoi a) (atoi b) lo hi
range_parts-Ends (a ∷ b ∷ c ∷ ps) lo hi = tt

step_values-Ends : (range : Text) (lo hi : ℕ) → Ends (hi + 1 - lo) (step_values range lo hi)
unfolding step_values parse_range
step_values-Ends range lo hi =
    if-Ends (hi + 1 - lo) (text_eq range (codes "*")) _ _
      (λ e. omega (arith, length-count_up lo (hi + 1 - lo)))
      (λ e. range_parts-Ends (split_on b'-' range) lo hi)

length-drop : (n : ℕ) (vs : List ℕ) → length (drop n vs) ≤ length vs
length-drop zero vs = omega arith
length-drop (suc n) [] = omega arith
length-drop (suc n) (v ∷ vs) = omega (arith, length-drop n vs)

stride-Returns :
    (fuel n : ℕ) (vs : List ℕ) → length vs ≤ fuel → Returns (stride fuel vs (pos (suc n)))
unfolding stride
stride-Returns fuel n [] h = tt
stride-Returns zero n (v ∷ vs) h = omega arith
stride-Returns (suc fuel) n (v ∷ vs) h =
    push-Returns (v ∷ []) _ (stride-Returns fuel n (drop n vs) (omega (arith, length-drop n vs)))

-- Where the part has a step, the step is positive.
abbrev pub HasPositiveStep : Text → Type 0
HasPositiveStep part =
    (a b : Text) (z : ℤ) → split_on b'/' part ≡ a ∷ b ∷ [] → atoi b ≡ some z → ltz (pos 0) z ≡ true

step_value-Returns :
    (fuel : ℕ) (range : Text) (step : Option ℤ) (lo hi : ℕ)
    → ((z : ℤ) → step ≡ some z → ltz (pos 0) z ≡ true)
    → hi + 1 - lo ≤ fuel
    → Returns (step_value fuel range step lo hi)
unfolding step_value
step_value-Returns fuel range none lo hi p h = tt
step_value-Returns fuel range (some (pos zero)) lo hi p h = absurd (ground (arith, p (pos 0) refl))
step_value-Returns fuel range (some (pos (suc n))) lo hi p h =
    bind-Returns (hi + 1 - lo) (step_values range lo hi) (λ vs. stride fuel vs (pos (suc n)))
      (step_values-Ends range lo hi) (λ vs e. stride-Returns fuel n vs (omega arith))
step_value-Returns fuel range (some (negsuc n)) lo hi p h =
    absurd (ground (arith, p (negsuc n) refl))

step_part-Returns :
    (fuel : ℕ) (ps : List Text) (lo hi : ℕ)
    → ((a b : Text) (z : ℤ) → ps ≡ a ∷ b ∷ [] → atoi b ≡ some z → ltz (pos 0) z ≡ true)
    → hi + 1 - lo ≤ fuel
    → Returns (step_part fuel ps lo hi)
unfolding step_part
step_part-Returns fuel [] lo hi p h = tt
step_part-Returns fuel (a ∷ []) lo hi p h = tt
step_part-Returns fuel (a ∷ b ∷ []) lo hi p h =
    step_value-Returns fuel a (atoi b) lo hi (λ z e. p a b z refl e) h
step_part-Returns fuel (a ∷ b ∷ c ∷ ps) lo hi p h = tt

single-Returns : (v : Option ℤ) (lo hi : ℕ) → Returns (single v lo hi)
unfolding single
single-Returns none lo hi = tt
single-Returns (some v) lo hi = if-Returns (below v lo || above v hi) _ _ tt tt

parse_part-Returns :
    (fuel : ℕ) (part : Text) (lo hi : ℕ)
    → HasPositiveStep part
    → hi + 1 - lo ≤ fuel
    → Returns (parse_part fuel part lo hi)
unfolding parse_part parse_range
parse_part-Returns fuel part lo hi p h =
    if-Returns (not (lacks b'/' part)) _ _ (step_part-Returns fuel (split_on b'/' part) lo hi p h) (
      if-Returns (not (lacks b'-' part)) _ _
        (Ends-Returns (hi + 1 - lo) _ (range_parts-Ends (split_on b'-' part) lo hi))
        (single-Returns (atoi part) lo hi))

parse_parts-Returns :
    (fuel : ℕ) (ps : List Text) (lo hi : ℕ)
    → All HasPositiveStep ps
    → hi + 1 - lo ≤ fuel
    → Returns (parse_parts fuel ps lo hi)
unfolding parse_parts
parse_parts-Returns fuel [] lo hi p h = tt
parse_parts-Returns fuel (t ∷ ps) lo hi p h =
    then-Returns (parse_part fuel t lo hi) (λ vs. push vs (parse_parts fuel ps lo hi))
      (parse_part-Returns fuel t lo hi p.0 h)
      (λ vs. push-Returns vs _ (parse_parts-Returns fuel ps lo hi p.1 h))

not_empty-Returns : (vs : List ℕ) → Returns (not_empty vs)
not_empty-Returns [] = tt
not_empty-Returns (v ∷ vs) = tt

-- A field whose steps are all positive is parsed, to values or to an error, with as much fuel as
-- there are numbers within the bounds.
pub parse_field-Returns :
    (fuel : ℕ) (field : Text) (lo hi : ℕ)
    → All HasPositiveStep (split_on b',' field)
    → hi + 1 - lo ≤ fuel
    → Returns (parse_field fuel field lo hi)
unfolding parse_field
parse_field-Returns fuel field lo hi p h = if-Returns (text_eq field (codes "*")) _ _ tt (
    then-Returns (parse_parts fuel (split_on b',' field) lo hi) not_empty
      (parse_parts-Returns fuel (split_on b',' field) lo hi p h) not_empty-Returns)
