-- ===== src/Prelude/Padded.antt =====
-- Package encoding/base64 with padding: decoding by `StdEncoding`, and `URLEncoding`.
use caspaste.Prelude.{
  ℕ, ◌+◌, ◌*◌, ◌/◌, ◌%◌, ◌<◌, ◌≡◌, refl, ap, ◌∙◌, ltb, ◌==◌, ◌&&◌, ◌||◌, Bool, true, false,
  if◌then◌else◌, Option, none, some, List, [], ◌∷◌, map, Text, lacks, All, arith,
}
use caspaste.Prelude.Base64.{
  base64_digit, base64, digit_value, prepend, AreBytes, base64_digit-ne, digit_value-base64_digit,
}

-- 65 for the padding.
abbrev symbol_value : ℕ → ℕ
symbol_value c = if c == b'=' then 65 else digit_value c

symbols_of : Text → List ℕ
symbols_of [] = []
symbols_of (c ∷ t) =
    let rest = symbols_of t in if c == b'\r' || c == b'\n' then rest else symbol_value c ∷ rest

abbrev is_end : List ℕ → Bool
is_end [] = true
is_end (v ∷ vs) = false

decode_symbols : List ℕ → Option Text
decode_symbols [] = some []
decode_symbols (a ∷ []) = none
decode_symbols (a ∷ b ∷ []) = none
decode_symbols (a ∷ b ∷ c ∷ []) = none
decode_symbols (a ∷ b ∷ c ∷ d ∷ vs) =
    let rest = decode_symbols vs in
    if ltb a 64 && ltb b 64 && ltb c 64 && ltb d 64
    then prepend (a * 4 + b / 16) (b % 16 * 16 + c / 4) (c % 4 * 64 + d) rest
    else if ltb a 64 && ltb b 64 && ltb c 64 && d == 65 && is_end vs
    then some ((a * 4 + b / 16) ∷ (b % 16 * 16 + c / 4) ∷ [])
    else if ltb a 64 && ltb b 64 && c == 65 && d == 65 && is_end vs
    then some ((a * 4 + b / 16) ∷ [])
    else none

-- `StdEncoding.DecodeString`; `none` is its error.
unfoldable pub decode : Text → Option Text
unfolding decode_symbols symbols_of
decode t = decode_symbols (symbols_of t)

base64_digit-pad : (n : ℕ) → (base64_digit n == b'=') ≡ false
base64_digit-pad n = ground arith

symbols_of-digit : (n : ℕ) (t : Text) → n < 64 → symbols_of (base64_digit n ∷ t) ≡ n ∷ symbols_of t
unfolding symbols_of
symbols_of-digit n t h =
    ground (arith, digit_value-base64_digit n h, base64_digit-ne n, base64_digit-pad n)

-- Four digits in a row.
symbols_of-digits :
    (x y z v : ℕ) (t : Text)
    → x < 64
    → y < 64
    → z < 64
    → v < 64
    → symbols_of (base64_digit x ∷ base64_digit y ∷ base64_digit z ∷ base64_digit v ∷ t)
      ≡ x ∷ y ∷ z ∷ v ∷ symbols_of t
symbols_of-digits x y z v t hx hy hz hv =
    symbols_of-digit x _ hx
    ∙ ap (◌∷◌ x) (
        symbols_of-digit y _ hy
        ∙ ap (◌∷◌ y) (symbols_of-digit z _ hz ∙ ap (◌∷◌ z) (symbols_of-digit v t hv)))

decode-three :
    (a b c : ℕ) (vs : List ℕ) (t : Text)
    → a < 256
    → b < 256
    → c < 256
    → decode_symbols vs ≡ some t
    → decode_symbols ((a / 4) ∷ (a % 4 * 16 + b / 16) ∷ (b % 16 * 4 + c / 64) ∷ (c % 64) ∷ vs)
      ≡ some (a ∷ b ∷ c ∷ t)
unfolding decode_symbols
decode-three a b c vs t ha hb hc h = rw h (ground arith)

decode-two :
    (a b : ℕ)
    → a < 256
    → b < 256
    → decode_symbols ((a / 4) ∷ (a % 4 * 16 + b / 16) ∷ (b % 16 * 4) ∷ 65 ∷ []) ≡ some (a ∷ b ∷ [])
unfolding decode_symbols
decode-two a b ha hb = ground arith

decode-one :
    (a : ℕ) → a < 256 → decode_symbols ((a / 4) ∷ (a % 4 * 16) ∷ 65 ∷ 65 ∷ []) ≡ some (a ∷ [])
unfolding decode_symbols
decode-one a ha = ground arith

-- What `StdEncoding` encodes it decodes again.
pub decode-base64 : (t : Text) → AreBytes t → decode (base64 t) ≡ some t
unfolding decode base64
decode-base64 [] h = refl
decode-base64 (a ∷ []) h =
    let x = a / 4 in
    let y = a % 4 * 16 in
    ap decode_symbols (
      symbols_of-digit x (base64_digit y ∷ b'=' ∷ b'=' ∷ []) (omega (arith, h.0))
      ∙ ap (◌∷◌ x) (symbols_of-digit y (b'=' ∷ b'=' ∷ []) (omega arith)))
    ∙ decode-one a h.0
decode-base64 (a ∷ b ∷ []) h =
    let x = a / 4 in
    let y = a % 4 * 16 + b / 16 in
    let z = b % 16 * 4 in
    ap decode_symbols (
      symbols_of-digit x (base64_digit y ∷ base64_digit z ∷ b'=' ∷ []) (omega (arith, h.0))
      ∙ ap (◌∷◌ x) (
          symbols_of-digit y (base64_digit z ∷ b'=' ∷ []) (omega (arith, h.1.0))
          ∙ ap (◌∷◌ y) (symbols_of-digit z (b'=' ∷ []) (omega arith))))
    ∙ decode-two a b h.0 h.1.0
decode-base64 (a ∷ b ∷ c ∷ t) h =
    ap decode_symbols (
      symbols_of-digits (a / 4) (a % 4 * 16 + b / 16) (b % 16 * 4 + c / 64) (c % 64) (base64 t)
        (omega (arith, h.0)) (omega (arith, h.1.0)) (omega (arith, h.1.1.0)) (omega arith))
    ∙ decode-three a b c (symbols_of (base64 t)) t h.0 h.1.0 h.1.1.0 (decode-base64 t h.1.1.1)

-- `URLEncoding` has two other digits.
abbrev to_url : ℕ → ℕ
to_url c = if c == b'+' then b'-' else if c == b'/' then b'_' else c

abbrev from_url : ℕ → ℕ
from_url c = if c == b'-' then b'+' else if c == b'_' then b'/' else c

unfoldable pub url_base64 : Text → Text
unfolding base64
url_base64 t = map to_url (base64 t)

-- `URLEncoding.DecodeString`.
unfoldable pub url_decode : Text → Option Text
unfolding decode
url_decode t = if lacks b'+' t && lacks b'/' t then decode (map from_url t) else none

-- The bytes of an encoding.
abbrev IsSymbol : ℕ → Type 0
IsSymbol c =
    (to_url c == b'+' ≡ false)
    × (to_url c == b'/' ≡ false)
    × (to_url c == b'.' ≡ false)
    × (from_url (to_url c) ≡ c)

base64_digit-IsSymbol : (n : ℕ) → IsSymbol (base64_digit n)
base64_digit-IsSymbol n = (ground arith, ground arith, ground arith, ground arith)

pad : IsSymbol b'='
pad = (refl, refl, refl, refl)

base64-All : (t : Text) → All IsSymbol (base64 t)
unfolding base64
base64-All [] = tt
base64-All (a ∷ []) =
    let d = base64_digit-IsSymbol in (d (a / 4), (d (a % 4 * 16), (pad, (pad, tt))))
base64-All (a ∷ b ∷ []) =
    let d = base64_digit-IsSymbol in
    (d (a / 4), (d (a % 4 * 16 + b / 16), (d (b % 16 * 4), (pad, tt))))
base64-All (a ∷ b ∷ c ∷ t) =
    let d = base64_digit-IsSymbol in
    let rest = base64-All t in
    (d (a / 4), (d (a % 4 * 16 + b / 16), (d (b % 16 * 4 + c / 64), (d (c % 64), rest))))

url-All :
    (t : Text)
    → All IsSymbol t
    → (lacks b'+' (map to_url t) ≡ true)
      × (lacks b'/' (map to_url t) ≡ true)
      × (lacks b'.' (map to_url t) ≡ true)
      × (map from_url (map to_url t) ≡ t)
url-All [] h = (refl, refl, refl, refl)
url-All (c ∷ t) h =
    let rest = url-All t h.1 in
    (rw h.0.0 rest.0, rw h.0.1 rest.1, rw h.0.2 rest.2, rw h.0.3 (ap (◌∷◌ c) rest.3))

-- What `URLEncoding` encodes it decodes again, and the encoding has no dot.
pub url_decode-url_base64 :
    (t : Text)
    → AreBytes t
    → (url_decode (url_base64 t) ≡ some t) × (lacks b'.' (url_base64 t) ≡ true)
unfolding url_decode url_base64
url_decode-url_base64 t h =
    let url = url-All (base64 t) (base64-All t) in
    (rw url.0 (rw url.1 (rw url.3 (decode-base64 t h))), url.2)
