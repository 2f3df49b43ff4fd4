-- ===== src/Prelude/Strings.antt =====
-- Searches and case of package strings, and the runes of a UTF-8 text. Letters are those of ASCII.
use caspaste.Prelude.{
  ℕ, zero, suc, ◌+◌, ◌-◌, ltb, leb, ◌==◌, ◌&&◌, ◌||◌, Bool, false, if◌then◌else◌, List, [], ◌∷◌,
  map, Text, has_prefix, text_eq,
}

unfoldable pub lower : ℕ → ℕ
lower c = if leb b'A' c && leb c b'Z' then c + 32 else c

-- `strings.ToLower`.
unfoldable pub to_lower : Text → Text
unfolding lower
to_lower = map lower

-- `strings.EqualFold`.
unfoldable pub equal_fold : Text → Text → Bool
unfolding to_lower text_eq
equal_fold a b = text_eq (to_lower a) (to_lower b)

-- `strings.Contains`, its arguments swapped.
unfoldable pub occurs : Text → Text → Bool
unfolding has_prefix
occurs sub [] = has_prefix sub []
occurs sub (c ∷ t) = has_prefix sub (c ∷ t) || occurs sub t

-- `strings.HasSuffix`, its arguments swapped.
unfoldable pub has_suffix : Text → Text → Bool
unfolding text_eq
has_suffix sub [] = text_eq sub []
has_suffix sub (c ∷ t) = text_eq sub (c ∷ t) || has_suffix sub t

-- Membership of a text in a list.
unfoldable pub one_of : List Text → Text → Bool
unfolding text_eq
one_of [] t = false
one_of (w ∷ ws) t = text_eq t w || one_of ws t

abbrev between : ℕ → ℕ → ℕ → Bool
between lo hi c = leb lo c && leb c hi

-- The range of a second byte, after the first.
abbrev second : ℕ → ℕ → Bool
second b c =
    if b == 0xE0
    then between 0xA0 0xBF c
    else if b == 0xED
    then between 0x80 0x9F c
    else if b == 0xF0
    then between 0x90 0xBF c
    else if b == 0xF4
    then between 0x80 0x8F c
    else between 0x80 0xBF c

abbrev tail_byte : ℕ → Bool
tail_byte c = between 0x80 0xBF c

-- The bytes of the rune at the head of a text whose first byte is not ASCII, or 0 where the text does
-- not begin with valid UTF-8.
wide : ℕ → Text → ℕ
wide b (c ∷ d ∷ e ∷ t) =
    if between 0xC2 0xDF b && tail_byte c
    then 2
    else if between 0xE0 0xEF b && second b c && tail_byte d
    then 3
    else if between 0xF0 0xF4 b && second b c && tail_byte d && tail_byte e
    then 4
    else 0
wide b (c ∷ d ∷ []) =
    if between 0xC2 0xDF b && tail_byte c
    then 2
    else if between 0xE0 0xEF b && second b c && tail_byte d
    then 3
    else 0
wide b (c ∷ []) = if between 0xC2 0xDF b && tail_byte c then 2 else 0
wide b [] = 0

-- How many bytes follow in the rune that begins with `b`; invalid bytes stand alone.
unfoldable pub more_bytes : ℕ → Text → ℕ
unfolding wide
more_bytes b t = if ltb b 0x80 then 0 else wide b t - 1

-- `utf8.RuneCountInString`. The first argument is the number of bytes left of a counted rune.
unfoldable pub runes_from : ℕ → Text → ℕ
unfolding more_bytes
runes_from k [] = 0
runes_from (suc k) (b ∷ t) = runes_from k t
runes_from zero (b ∷ t) = runes_from (more_bytes b t) t + 1

abbrev pub rune_count : Text → ℕ
rune_count t = runes_from 0 t

-- Whether the byte begins no valid rune.
unfoldable pub is_invalid : ℕ → Text → Bool
unfolding wide
is_invalid b t = leb 0x80 b && wide b t == 0
