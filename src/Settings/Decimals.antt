-- ===== src/Settings/Decimals.antt =====
-- A number that is written in decimal is read back.
use caspaste.Prelude.{
  ℕ, zero, suc, ◌+◌, ◌*◌, ◌-◌, ◌/◌, ◌%◌, ◌^◌, ◌<◌, ◌≤◌, ◌≡◌, ◌≢◌, refl, ap, ◌∙◌, ltb, leb, ◌&&◌,
  true, Bool-cases, inl, inr, some, [], ◌∷◌, Text, length, All, arith,
}
use caspaste.Prelude.Int.{pos}
use caspaste.Prelude.Numbers.{is_digit, digits_from, atoi}
use caspaste.Form.Request.{digits, format_int}

-- What a number of digits can write.
abbrev cap : ℕ → ℕ
cap zero = 1
cap (suc f) = cap f * 10

last_digit :
    (n : ℕ) (rest : Text) → digits_from (n / 10) ((b'0' + n % 10) ∷ rest) ≡ digits_from n rest
unfolding digits_from is_digit
last_digit n rest =
    let value : n / 10 * 10 + (b'0' + n % 10 - b'0') ≡ n = omega arith in
    let good : (leb b'0' (b'0' + n % 10) && leb (b'0' + n % 10) b'9') ≡ true = ground arith in
    rw good (ap (λ a. digits_from a rest) value)

digits_from-digits :
    (fuel n : ℕ) (rest : Text)
    → n < cap fuel
    → 0 < fuel
    → digits_from 0 (digits fuel n rest) ≡ digits_from n rest
unfolding digits_from digits is_digit
digits_from-digits zero n rest h p = absurd (omega (arith, p))
digits_from-digits (suc zero) n rest h p = ground (arith, h)
digits_from-digits (suc (suc f)) n rest h p = elim (Bool-cases (ltb n 10)) [
  | inl small ↦ rw small (ground (arith, small))
  | inr big ↦ rw big (
      digits_from-digits (suc f) (n / 10) ((b'0' + n % 10) ∷ rest) (omega (arith, h)) (omega arith)
      ∙ last_digit n rest)
]

digit_is : (n : ℕ) → is_digit (b'0' + n % 10) ≡ true
unfolding is_digit
digit_is n = ground arith

digits-All :
    (fuel n : ℕ) (rest : Text)
    → n < cap fuel
    → All (λ c. is_digit c ≡ true) rest
    → All (λ c. is_digit c ≡ true) (digits fuel n rest)
unfolding digits is_digit
digits-All zero n rest h a = a
digits-All (suc f) n rest h a = elim (Bool-cases (ltb n 10)) [
  | inl small ↦ rw small (ground (arith, small), a)
  | inr big ↦
      rw big (digits-All f (n / 10) ((b'0' + n % 10) ∷ rest) (omega (arith, h)) (digit_is n, a))
]

-- The first byte of digits.
atoi-digits :
    (t : Text) (n : ℕ)
    → All (λ c. is_digit c ≡ true) t
    → t ≢ []
    → digits_from 0 t ≡ some n
    → n < 2 ^ 63
    → atoi t ≡ some (pos n)
unfolding atoi is_digit
atoi-digits [] n a ne e h = absurd (ne refl)
atoi-digits (c ∷ t) n a ne e h = ground (arith, a.0, e, h)

length-digits : (fuel n : ℕ) (rest : Text) → length rest ≤ length (digits fuel n rest)
unfolding digits
length-digits zero n rest = omega arith
length-digits (suc f) n rest = elim (Bool-cases (ltb n 10)) [
  | inl small ↦ rw small (omega arith)
  | inr big ↦ rw big (omega (arith, length-digits f (n / 10) ((b'0' + n % 10) ∷ rest)))
]

format_int-long : (n : ℕ) → 0 < length (format_int n)
unfolding format_int digits
format_int-long n = elim (Bool-cases (ltb n 10)) [
  | inl small ↦ rw small (omega arith)
  | inr big ↦ rw big (omega (arith, length-digits 19 (n / 10) ((b'0' + n % 10) ∷ [])))
]

format_int-filled : (n : ℕ) → format_int n ≢ []
format_int-filled n e = absurd (omega (arith, format_int-long n, ap length e))

pub format_int-All : (n : ℕ) → n < 2 ^ 63 → All (λ c. is_digit c ≡ true) (format_int n)
unfolding format_int
format_int-All n h = digits-All 20 n [] (omega (arith, h)) tt

-- `strconv.Atoi` reads what `strconv.FormatInt` writes of a positive number.
pub atoi-format_int : (n : ℕ) → n < 2 ^ 63 → atoi (format_int n) ≡ some (pos n)
unfolding format_int digits_from
atoi-format_int n h =
    atoi-digits (digits 20 n []) n (digits-All 20 n [] (omega (arith, h)) tt) (format_int-filled n)
      (digits_from-digits 20 n [] (omega (arith, h)) (omega arith)) h
