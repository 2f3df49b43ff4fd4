-- ===== src/Prelude/Numbers.antt =====
-- `strconv.Atoi`, and `strings.TrimSpace` and `strings.Fields` on ASCII.
use caspaste.Prelude.{
  ◌≡◌, refl, false, All, ℕ, ◌+◌, ◌*◌, ◌-◌, ◌^◌, ltb, leb, ◌==◌, ◌&&◌, ◌||◌, Bool, if◌then◌else◌,
  Option, none, some, List, [], ◌∷◌, ◌++◌, Text,
}
use caspaste.Prelude.Int.{ℤ, pos, negsuc}

unfoldable pub is_digit : ℕ → Bool
is_digit c = leb b'0' c && leb c b'9'

-- The value of decimal digits after those whose value is `acc`.
unfoldable pub digits_from : ℕ → Text → Option ℕ
unfolding is_digit
digits_from acc [] = some acc
digits_from acc (c ∷ cs) =
    let rest = digits_from (acc * 10 + (c - b'0')) cs in if is_digit c then rest else none

abbrev unsigned : Text → Option ℕ
unsigned [] = none
unsigned (c ∷ cs) = digits_from 0 (c ∷ cs)

-- An `int` has 64 bits.
abbrev in_range : Option ℕ → Option ℤ
in_range none = none
in_range (some n) = if ltb n (2 ^ 63) then some (pos n) else none

abbrev negative : Option ℕ → Option ℤ
negative none = none
negative (some n) =
    if n == 0 then some (pos 0) else if leb n (2 ^ 63) then some (negsuc (n - 1)) else none

unfoldable pub atoi : Text → Option ℤ
unfolding digits_from
atoi [] = none
atoi (c ∷ cs) =
    if c == b'+'
    then in_range (unsigned cs)
    else if c == b'-'
    then negative (unsigned cs)
    else in_range (unsigned (c ∷ cs))

unfoldable pub is_space : ℕ → Bool
is_space c = c == b' ' || (leb 9 c && leb c 13)

trim_left : Text → Text
unfolding is_space
trim_left [] = []
trim_left (c ∷ cs) = let rest = trim_left cs in if is_space c then rest else c ∷ cs

trim_right : Text → Text
unfolding is_space
trim_right [] = []
trim_right (c ∷ cs) = keep c (trim_right cs)
  where
    keep : ℕ → Text → Text
    keep c [] = if is_space c then [] else c ∷ []
    keep c (d ∷ ds) = c ∷ d ∷ ds

unfoldable pub trim_space : Text → Text
unfolding trim_left trim_right
trim_space t = trim_right (trim_left t)

abbrev close : Text → List Text → List Text
close [] ws = ws
close (c ∷ cs) ws = (c ∷ cs) ∷ ws

-- The words, the first of which has begun with `word`.
fields_from : Text → Text → List Text
unfolding is_space
fields_from word [] = close word []
fields_from word (c ∷ cs) =
    if is_space c then close word (fields_from [] cs) else fields_from (word ++ c ∷ []) cs

unfoldable pub fields : Text → List Text
unfolding fields_from
fields t = fields_from [] t

trim_right-lacks : (t : Text) → All (λ c. is_space c ≡ false) t → trim_right t ≡ t
unfolding trim_right
trim_right-lacks [] h = refl
trim_right-lacks (c ∷ []) h = rw h.0 refl
trim_right-lacks (c ∷ d ∷ t) h = rw (trim_right-lacks (d ∷ t) h.1) refl

-- A text without white space is trimmed to itself.
pub trim_space-lacks : (t : Text) → All (λ c. is_space c ≡ false) t → trim_space t ≡ t
unfolding trim_space trim_left
trim_space-lacks [] h = refl
trim_space-lacks (c ∷ t) h = rw h.0 (trim_right-lacks (c ∷ t) h)
