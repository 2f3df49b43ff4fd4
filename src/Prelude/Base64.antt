-- ===== src/Prelude/Base64.antt =====
-- Package encoding/base64: `StdEncoding` and `RawStdEncoding`.
use caspaste.Prelude.{
  ℕ, ◌+◌, ◌*◌, ◌-◌, ◌/◌, ◌%◌, ◌<◌, ◌≡◌, refl, ap, ◌∙◌, ltb, leb, ◌==◌, ◌&&◌, ◌||◌, true, false,
  if◌then◌else◌, Option, none, some, List, [], ◌∷◌, Text, lacks, All, arith,
}

abbrev pub base64_digit : ℕ → ℕ
base64_digit n =
    if ltb n 26
    then b'A' + n
    else if ltb n 52
    then b'a' + (n - 26)
    else if ltb n 62
    then b'0' + (n - 52)
    else if n == 62
    then b'+'
    else b'/'

-- `base64.StdEncoding.EncodeToString`.
unfoldable pub base64 : Text → Text
base64 [] = []
base64 (a ∷ []) = base64_digit (a / 4) ∷ base64_digit (a % 4 * 16) ∷ b'=' ∷ b'=' ∷ []
base64 (a ∷ b ∷ []) =
    base64_digit (a / 4)
    ∷ base64_digit (a % 4 * 16 + b / 16)
    ∷ base64_digit (b % 16 * 4)
    ∷ b'='
    ∷ []
base64 (a ∷ b ∷ c ∷ t) =
    base64_digit (a / 4)
    ∷ base64_digit (a % 4 * 16 + b / 16)
    ∷ base64_digit (b % 16 * 4 + c / 64)
    ∷ base64_digit (c % 64)
    ∷ base64 t

-- `RawStdEncoding.EncodeToString`, which does not pad.
unfoldable pub raw_base64 : Text → Text
raw_base64 [] = []
raw_base64 (a ∷ []) = base64_digit (a / 4) ∷ base64_digit (a % 4 * 16) ∷ []
raw_base64 (a ∷ b ∷ []) =
    base64_digit (a / 4) ∷ base64_digit (a % 4 * 16 + b / 16) ∷ base64_digit (b % 16 * 4) ∷ []
raw_base64 (a ∷ b ∷ c ∷ t) =
    base64_digit (a / 4)
    ∷ base64_digit (a % 4 * 16 + b / 16)
    ∷ base64_digit (b % 16 * 4 + c / 64)
    ∷ base64_digit (c % 64)
    ∷ raw_base64 t

-- 64 for a byte that is no digit.
abbrev pub digit_value : ℕ → ℕ
digit_value c =
    if leb b'A' c && leb c b'Z'
    then c - b'A'
    else if leb b'a' c && leb c b'z'
    then c - b'a' + 26
    else if leb b'0' c && leb c b'9'
    then c - b'0' + 52
    else if c == b'+'
    then 62
    else if c == b'/'
    then 63
    else 64

abbrev pub prepend : ℕ → ℕ → ℕ → Option Text → Option Text
prepend x y z none = none
prepend x y z (some t) = some (x ∷ y ∷ z ∷ t)

decode_values : List ℕ → Option Text
decode_values [] = some []
decode_values (a ∷ []) = none
decode_values (a ∷ b ∷ []) = if ltb a 64 && ltb b 64 then some ((a * 4 + b / 16) ∷ []) else none
decode_values (a ∷ b ∷ c ∷ []) =
    if ltb a 64 && ltb b 64 && ltb c 64
    then some ((a * 4 + b / 16) ∷ (b % 16 * 16 + c / 4) ∷ [])
    else none
decode_values (a ∷ b ∷ c ∷ d ∷ t) =
    let rest = decode_values t in
    if ltb a 64 && ltb b 64 && ltb c 64 && ltb d 64
    then prepend (a * 4 + b / 16) (b % 16 * 16 + c / 4) (c % 4 * 64 + d) rest
    else none

-- The values of the bytes, without the line breaks, which the decoder passes over.
values_of : Text → List ℕ
values_of [] = []
values_of (c ∷ t) =
    let rest = values_of t in if c == b'\r' || c == b'\n' then rest else digit_value c ∷ rest

-- `RawStdEncoding.DecodeString`; `none` is its error.
unfoldable pub raw_decode : Text → Option Text
unfolding decode_values values_of
raw_decode t = decode_values (values_of t)

abbrev pub AreBytes : Text → Type 0
AreBytes = All (λ b. b < 256)

pub digit_value-base64_digit : (n : ℕ) → n < 64 → digit_value (base64_digit n) ≡ n
digit_value-base64_digit n h = ground arith

-- A digit of base64 is none of the bytes that divide a file or a hash.
pub base64_digit-ne :
    (n : ℕ)
    → ((base64_digit n == b'$') ≡ false)
      × ((base64_digit n == b':') ≡ false)
      × ((base64_digit n == b'\n') ≡ false)
      × ((base64_digit n == b'\r') ≡ false)
base64_digit-ne n = ground arith

values_of-digit : (n : ℕ) (t : Text) → n < 64 → values_of (base64_digit n ∷ t) ≡ n ∷ values_of t
unfolding values_of
values_of-digit n t h = ground (arith, digit_value-base64_digit n h, base64_digit-ne n)

module _ (a b c : ℕ) (ha : a < 256) (hb : b < 256) (hc : c < 256) where
  values_of-group :
      (t : Text)
      → values_of (
          base64_digit (a / 4)
          ∷ base64_digit (a % 4 * 16 + b / 16)
          ∷ base64_digit (b % 16 * 4 + c / 64)
          ∷ base64_digit (c % 64)
          ∷ t)
        ≡ (a / 4) ∷ (a % 4 * 16 + b / 16) ∷ (b % 16 * 4 + c / 64) ∷ (c % 64) ∷ values_of t
  values_of-group t =
      values_of-digit (a / 4) _ (omega arith)
      ∙ ap (◌∷◌ (a / 4)) (
          values_of-digit (a % 4 * 16 + b / 16) _ (omega arith)
          ∙ ap (◌∷◌ (a % 4 * 16 + b / 16)) (
              values_of-digit (b % 16 * 4 + c / 64) _ (omega arith)
              ∙ ap (◌∷◌ (b % 16 * 4 + c / 64)) (values_of-digit (c % 64) t (omega arith))))

  decode-group :
      (vs : List ℕ) (t : Text)
      → decode_values vs ≡ some t
      → decode_values ((a / 4) ∷ (a % 4 * 16 + b / 16) ∷ (b % 16 * 4 + c / 64) ∷ (c % 64) ∷ vs)
        ≡ some (a ∷ b ∷ c ∷ t)
  unfolding decode_values
  decode-group vs t h = rw h (ground arith)

-- What `RawStdEncoding` encodes it decodes again.
pub raw_decode-raw_base64 : (t : Text) → AreBytes t → raw_decode (raw_base64 t) ≡ some t
unfolding raw_decode raw_base64
raw_decode-raw_base64 [] h = refl
raw_decode-raw_base64 (a ∷ []) h =
    ap decode_values (
      values_of-digit (a / 4) (base64_digit (a % 4 * 16) ∷ []) (omega (arith, h.0))
      ∙ ap (◌∷◌ (a / 4)) (values_of-digit (a % 4 * 16) [] (omega arith)))
    ∙ ground (arith, h.0)
raw_decode-raw_base64 (a ∷ b ∷ []) h =
    let y = a % 4 * 16 + b / 16 in
    let z = b % 16 * 4 in
    ap decode_values (
      values_of-digit (a / 4) (base64_digit y ∷ base64_digit z ∷ []) (omega (arith, h.0))
      ∙ ap (◌∷◌ (a / 4)) (
          values_of-digit y (base64_digit z ∷ []) (omega (arith, h.1.0))
          ∙ ap (◌∷◌ y) (values_of-digit z [] (omega arith))))
    ∙ ground (arith, h.0, h.1.0)
raw_decode-raw_base64 (a ∷ b ∷ c ∷ t) h =
    ap decode_values (values_of-group a b c h.0 h.1.0 h.1.1.0 (raw_base64 t))
    ∙ decode-group a b c h.0 h.1.0 h.1.1.0 (values_of (raw_base64 t)) t
        (raw_decode-raw_base64 t h.1.1.1)

lacks-digit :
    (s n : ℕ) (t : Text)
    → (base64_digit n == s) ≡ false
    → lacks s t ≡ true
    → lacks s (base64_digit n ∷ t) ≡ true
lacks-digit s n t e h = rw e h

-- A byte that is no digit does not occur in an encoding.
pub lacks-raw_base64 :
    (s : ℕ) → ((n : ℕ) → (base64_digit n == s) ≡ false) → (t : Text) → lacks s (raw_base64 t) ≡ true
unfolding raw_base64
lacks-raw_base64 s e [] = refl
lacks-raw_base64 s e (a ∷ []) =
    lacks-digit s (a / 4) (base64_digit (a % 4 * 16) ∷ []) (e (a / 4))
      (lacks-digit s (a % 4 * 16) [] (e (a % 4 * 16)) refl)
lacks-raw_base64 s e (a ∷ b ∷ []) =
    let y = a % 4 * 16 + b / 16 in
    let z = b % 16 * 4 in
    lacks-digit s (a / 4) (base64_digit y ∷ base64_digit z ∷ []) (e (a / 4))
      (lacks-digit s y (base64_digit z ∷ []) (e y) (lacks-digit s z [] (e z) refl))
lacks-raw_base64 s e (a ∷ b ∷ c ∷ t) =
    let y = a % 4 * 16 + b / 16 in
    let z = b % 16 * 4 + c / 64 in
    let rest = raw_base64 t in
    lacks-digit s (a / 4) (base64_digit y ∷ base64_digit z ∷ base64_digit (c % 64) ∷ rest)
      (e (a / 4))
      (lacks-digit s y (base64_digit z ∷ base64_digit (c % 64) ∷ rest) (e y) (
        lacks-digit s z (base64_digit (c % 64) ∷ rest) (e z)
          (lacks-digit s (c % 64) rest (e (c % 64)) (lacks-raw_base64 s e t))))
