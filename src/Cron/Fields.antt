-- ===== src/Cron/Fields.antt =====
-- What a field that parses holds.
use caspaste.Prelude.{
  ℕ, zero, suc, ◌+◌, ◌-◌, ◌≤◌, ◌<◌, ◌≡◌, ◌≢◌, refl, sym, ◌∙◌, Bool, true, false, if◌then◌else◌,
  ◌||◌, not, Option, none, some, List, [], ◌∷◌, ◌++◌, Text, text_eq, codes, lacks, split_on, drop,
  All, arith, Bool-cases, inl, inr,
}
use caspaste.Prelude.Int.{ℤ, pos, negsuc}
use caspaste.Cron.Parse.{
  ok, err, panic, out_of_fuel, ◌>>=◌, Parsed, count_up, below, above, to_nat, greater, check_range,
  range_parts, parse_range, push, stride, step_values, step_value, step_part, single, parse_part,
  parse_parts, not_empty, parse_field,
}
use caspaste.Prelude.Numbers.{atoi}

abbrev pub Within : ℕ → ℕ → ℕ → Type 0
Within lo hi v = (lo ≤ v) × (v ≤ hi)

-- The values, if there are any, lie within the bounds.
abbrev pub Sound : ℕ → ℕ → Parsed → Type 0
Sound lo hi (ok vs) = All (Within lo hi) vs
Sound lo hi (err e) = Unit
Sound lo hi panic = Unit
Sound lo hi out_of_fuel = Unit

All-append : (P : ℕ → Type 0) (vs ws : List ℕ) → All P vs → All P ws → All P (vs ++ ws)
All-append P [] ws a b = b
All-append P (v ∷ vs) ws a b = (a.0, All-append P vs ws a.1 b)

All-drop : (P : ℕ → Type 0) (n : ℕ) (vs : List ℕ) → All P vs → All P (drop n vs)
All-drop P zero vs a = a
All-drop P (suc n) [] a = a
All-drop P (suc n) (v ∷ vs) a = All-drop P n vs a.1

count_up-Within :
    (n lo' lo hi : ℕ) → lo ≤ lo' → lo' + n ≤ hi + 1 → All (Within lo hi) (count_up lo' n)
count_up-Within zero lo' lo hi a b = tt
count_up-Within (suc n) lo' lo hi a b =
    ((a, omega arith), count_up-Within n (lo' + 1) lo hi (omega arith) (omega arith))

push-Sound :
    (lo hi : ℕ) (vs : List ℕ) (r : Parsed)
    → All (Within lo hi) vs
    → Sound lo hi r
    → Sound lo hi (push vs r)
push-Sound lo hi vs (ok ws) a s = All-append (Within lo hi) vs ws a s
push-Sound lo hi vs (err e) a s = tt
push-Sound lo hi vs panic a s = tt
push-Sound lo hi vs out_of_fuel a s = tt

bind-Sound :
    (lo hi : ℕ) (r : Parsed) (f : List ℕ → Parsed)
    → Sound lo hi r
    → ((vs : List ℕ) → All (Within lo hi) vs → Sound lo hi (f vs))
    → Sound lo hi (r >>= f)
bind-Sound lo hi (ok vs) f s next = next vs s
bind-Sound lo hi (err e) f s next = tt
bind-Sound lo hi panic f s next = tt
bind-Sound lo hi out_of_fuel f s next = tt

if-Sound :
    (lo hi : ℕ) (b : Bool) (r q : Parsed)
    → (b ≡ true → Sound lo hi r)
    → (b ≡ false → Sound lo hi q)
    → Sound lo hi (if b then r else q)
if-Sound lo hi true r q s t = s refl
if-Sound lo hi false r q s t = t refl

range-Within :
    (lo hi : ℕ) (start end : ℤ)
    → greater start end ≡ false
    → (below start lo || above end hi) ≡ false
    → All (Within lo hi) (count_up (to_nat start) (to_nat end + 1 - to_nat start))
range-Within lo hi (pos a) (pos b) g h =
    count_up-Within (b + 1 - a) a lo hi (ground arith) (ground arith)
range-Within lo hi (pos a) (negsuc b) g h = ground arith
range-Within lo hi (negsuc a) end g h = ground arith

check_range-Sound : (start end : Option ℤ) (lo hi : ℕ) → Sound lo hi (check_range start end lo hi)
unfolding check_range
check_range-Sound none end lo hi = tt
check_range-Sound (some start) none lo hi = tt
check_range-Sound (some start) (some end) lo hi =
    if-Sound lo hi (greater start end) _ _ (λ h. tt)
      (λ g.
        if-Sound lo hi (below start lo || above end hi) _ _ (λ h. tt)
          (λ h. range-Within lo hi start end g h))

range_parts-Sound : (ps : List Text) (lo hi : ℕ) → Sound lo hi (range_parts ps lo hi)
unfolding range_parts
range_parts-Sound [] lo hi = tt
range_parts-Sound (a ∷ []) lo hi = tt
range_parts-Sound (a ∷ b ∷ []) lo hi = check_range-Sound (atoi a) (atoi b) lo hi
range_parts-Sound (a ∷ b ∷ c ∷ ps) lo hi = tt

parse_range-Sound : (r : Text) (lo hi : ℕ) → Sound lo hi (parse_range r lo hi)
unfolding parse_range
parse_range-Sound r lo hi = range_parts-Sound (split_on b'-' r) lo hi

stride-Sound :
    (fuel : ℕ) (vs : List ℕ) (step : ℤ) (lo hi : ℕ)
    → All (Within lo hi) vs
    → Sound lo hi (stride fuel vs step)
unfolding stride
stride-Sound fuel [] step lo hi a = tt
stride-Sound zero (v ∷ vs) step lo hi a = tt
stride-Sound (suc fuel) (v ∷ vs) (pos n) lo hi a =
    push-Sound lo hi (v ∷ []) _ (a.0, tt)
      (stride-Sound fuel (drop n (v ∷ vs)) (pos n) lo hi (All-drop (Within lo hi) n (v ∷ vs) a))
stride-Sound (suc fuel) (v ∷ vs) (negsuc n) lo hi a = tt

bounds-Within : (lo hi : ℕ) → lo ≤ hi → All (Within lo hi) (count_up lo (hi + 1 - lo))
bounds-Within lo hi h = count_up-Within (hi + 1 - lo) lo lo hi (omega arith) (omega arith)

step_part-Sound :
    (fuel : ℕ) (ps : List Text) (lo hi : ℕ) → lo ≤ hi → Sound lo hi (step_part fuel ps lo hi)
unfolding step_part step_value step_values
step_part-Sound fuel [] lo hi h = tt
step_part-Sound fuel (a ∷ []) lo hi h = tt
step_part-Sound fuel (range ∷ step ∷ []) lo hi h = with_step (atoi step)
  where
    values : Sound lo hi (step_values range lo hi)
    values =
        if-Sound lo hi (text_eq range (codes "*")) _ _ (λ e. bounds-Within lo hi h)
          (λ e. parse_range-Sound range lo hi)

    with_step : (z : Option ℤ) → Sound lo hi (step_value fuel range z lo hi)
    with_step none = tt
    with_step (some z) =
        bind-Sound lo hi (step_values range lo hi) (λ vs. stride fuel vs z) values
          (λ vs a. stride-Sound fuel vs z lo hi a)
step_part-Sound fuel (a ∷ b ∷ c ∷ ps) lo hi h = tt

single-Sound : (v : Option ℤ) (lo hi : ℕ) → Sound lo hi (single v lo hi)
unfolding single
single-Sound none lo hi = tt
single-Sound (some (pos n)) lo hi =
    if-Sound lo hi (below (pos n) lo || above (pos n) hi) _ _ (λ h. tt) (λ h. (ground arith, tt))
single-Sound (some (negsuc n)) lo hi = tt

parse_part-Sound :
    (fuel : ℕ) (part : Text) (lo hi : ℕ) → lo ≤ hi → Sound lo hi (parse_part fuel part lo hi)
unfolding parse_part
parse_part-Sound fuel part lo hi h =
    if-Sound lo hi (not (lacks b'/' part)) _ _
      (λ e. step_part-Sound fuel (split_on b'/' part) lo hi h)
      (λ e.
        if-Sound lo hi (not (lacks b'-' part)) _ _ (λ d. parse_range-Sound part lo hi)
          (λ d. single-Sound (atoi part) lo hi))

parse_parts-Sound :
    (fuel : ℕ) (ps : List Text) (lo hi : ℕ) → lo ≤ hi → Sound lo hi (parse_parts fuel ps lo hi)
unfolding parse_parts
parse_parts-Sound fuel [] lo hi h = tt
parse_parts-Sound fuel (p ∷ ps) lo hi h =
    bind-Sound lo hi (parse_part fuel p lo hi) (λ vs. push vs (parse_parts fuel ps lo hi))
      (parse_part-Sound fuel p lo hi h)
      (λ vs a. push-Sound lo hi vs _ a (parse_parts-Sound fuel ps lo hi h))

not_empty-Within :
    (lo hi : ℕ) (r : Parsed) (vs : List ℕ)
    → Sound lo hi r
    → (r >>= not_empty) ≡ ok vs
    → (vs ≢ []) × All (Within lo hi) vs
not_empty-Within lo hi (ok []) us s e = cc
not_empty-Within lo hi (ok (v ∷ vs)) us s e =
    let same : v ∷ vs ≡ us = cc in (λ d. cc, carry us same)
  where
    carry : (us : List ℕ) → v ∷ vs ≡ us → All (Within lo hi) us
    carry us same = rw (sym same) s
not_empty-Within lo hi (err x) us s e = cc
not_empty-Within lo hi panic us s e = cc
not_empty-Within lo hi out_of_fuel us s e = cc

count_up-filled : (n lo : ℕ) → 0 < n → count_up lo n ≢ []
count_up-filled zero lo h e = omega arith
count_up-filled (suc n) lo h e = cc

-- A field that parses holds at least one value, and only values within the bounds.
pub parse_field-Within :
    (fuel : ℕ) (field : Text) (lo hi : ℕ) (vs : List ℕ)
    → lo ≤ hi
    → parse_field fuel field lo hi ≡ ok vs
    → (vs ≢ []) × All (Within lo hi) vs
unfolding parse_field
parse_field-Within fuel field lo hi vs h e = elim (Bool-cases (text_eq field (codes "*"))) [
  | inl star ↦
      let same : count_up lo (hi + 1 - lo) ≡ vs = ground arith in
      ((λ d. count_up-filled (hi + 1 - lo) lo (omega arith) (same ∙ d)), every_value same)
  | inr other ↦
      not_empty-Within lo hi (parse_parts fuel (split_on b',' field) lo hi) vs
        (parse_parts-Sound fuel (split_on b',' field) lo hi h) (ground arith)
]
  where
    every_value : count_up lo (hi + 1 - lo) ≡ vs → All (Within lo hi) vs
    every_value same = rw (sym same) (bounds-Within lo hi h)
