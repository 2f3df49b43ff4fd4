-- ===== src/Settings/Spans.antt =====
-- Durations that are written in weeks, days, hours and minutes.
use caspaste.Prelude.{
  ℕ, ◌+◌, ◌*◌, ◌%◌, ◌^◌, ◌<◌, ◌≡◌, refl, sym, ap, ◌∙◌, true, some, List, [], ◌∷◌, ◌++◌, append-nil,
  append_assoc, Text, All, arith,
}
use caspaste.Prelude.Int.{pos}
use caspaste.Prelude.Numbers.{is_digit, atoi}
use caspaste.Form.Request.{format_int}
use caspaste.Form.Checks.{int64}
use caspaste.Settings.Decimals.{format_int-All, atoi-format_int}
use caspaste.Settings.Durations.{figure, kind_of, parse_from, parse_duration}

pub data TimeUnit : Type 0 where
  minutes hours days weeks : TimeUnit

abbrev pub seconds_of : TimeUnit → ℕ
seconds_of minutes = 60
seconds_of hours = 3600
seconds_of days = 86400
seconds_of weeks = 604800

abbrev pub letter_of : TimeUnit → ℕ
letter_of minutes = b'm'
letter_of hours = b'h'
letter_of days = b'd'
letter_of weeks = b'w'

abbrev pub render : List (ℕ × TimeUnit) → Text
render [] = []
render ((n, u) ∷ spans) = format_int n ++ letter_of u ∷ render spans

abbrev pub total : List (ℕ × TimeUnit) → ℕ
total [] = 0
total ((n, u) ∷ spans) = n * seconds_of u + total spans

digit-figure : (c : ℕ) → is_digit c ≡ true → kind_of c ≡ figure
unfolding is_digit
digit-figure c h = ground (arith, h)

parse_from-digits :
    (out : ℕ) (tmp t rest : Text)
    → All (λ c. is_digit c ≡ true) t
    → parse_from out tmp (t ++ rest) ≡ parse_from out (tmp ++ t) rest
unfolding parse_from
parse_from-digits out tmp [] rest h = ap (λ s. parse_from out s rest) (sym (append-nil tmp))
parse_from-digits out tmp (c ∷ t) rest h =
    rw (digit-figure c h.0, parse_from)
      (parse_from-digits out (tmp ++ c ∷ []) t rest h.1
        ∙ ap (λ s. parse_from out s rest) (append_assoc tmp (c ∷ []) t))

parse_from-letter :
    (out n : ℕ) (tmp rest : Text) (u : TimeUnit)
    → atoi tmp ≡ some (pos n)
    → parse_from out tmp (letter_of u ∷ rest)
      ≡ parse_from ((out + n * seconds_of u) % 2 ^ 64) [] rest
unfolding parse_from
parse_from-letter out n tmp rest minutes h = rw (h, parse_from) refl
parse_from-letter out n tmp rest hours h = rw (h, parse_from) refl
parse_from-letter out n tmp rest days h = rw (h, parse_from) refl
parse_from-letter out n tmp rest weeks h = rw (h, parse_from) refl

abbrev AreRepresentable : List (ℕ × TimeUnit) → Type 0
AreRepresentable = All (λ s. s.0 < 2 ^ 63)

small : (a : ℕ) → a < 2 ^ 63 → a % 2 ^ 64 ≡ a
small a h = omega (arith, h)

parse_from-render :
    (spans : List (ℕ × TimeUnit)) (out : ℕ)
    → AreRepresentable spans
    → out + total spans < 2 ^ 63
    → parse_from out [] (render spans) ≡ some (out + total spans)
unfolding parse_from
parse_from-render [] out a h = ap some (omega arith)
parse_from-render ((n, u) ∷ spans) out a h =
    let step = n * seconds_of u in
    parse_from-digits out [] (format_int n) (letter_of u ∷ render spans) (format_int-All n a.0)
    ∙ parse_from-letter out n (format_int n) (render spans) u (atoi-format_int n a.0)
    ∙ ap (λ o. parse_from o [] (render spans)) (small (out + step) (omega (arith, h)))
    ∙ parse_from-render spans (out + step) a.1 (omega (arith, h))
    ∙ ap some (omega arith)

-- A duration that is written in weeks, days, hours and minutes, in any order, is their sum, if its
-- nanoseconds fit in 63 bits.
pub parse_duration-render :
    (spans : List (ℕ × TimeUnit))
    → AreRepresentable spans
    → total spans * 10 ^ 9 < 2 ^ 63
    → parse_duration (render spans) ≡ some (pos (total spans * 10 ^ 9))
unfolding parse_duration
parse_duration-render spans a h =
    rw (parse_from-render spans 0 a (omega (arith, h))) (ap some (exact (total spans) h))
  where
    exact : (n : ℕ) → n * 10 ^ 9 < 2 ^ 63 → int64 ((0 + n) * 10 ^ 9 % 2 ^ 64) ≡ pos (n * 10 ^ 9)
    exact n h =
        let same : (0 + n) * 10 ^ 9 % 2 ^ 64 ≡ n * 10 ^ 9 = omega (arith, h) in
        rw same (ground (arith, h))
