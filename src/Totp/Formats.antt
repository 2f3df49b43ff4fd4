-- ===== src/Totp/Formats.antt =====
-- Recovery keys that are generated have the format that is asked of them.
use caspaste.Prelude.{
  ℕ, suc, ◌/◌, ◌%◌, ◌<◌, ◌≡◌, refl, sym, ap, ◌∙◌, true, false, Option, none, some, List, [], ◌∷◌,
  map, Text, length, All, arith,
}
use caspaste.Prelude.Numbers.{is_space, trim_space-lacks}
use caspaste.Prelude.Strings.{lower, to_lower}
use caspaste.Totp.Recovery.{
  hex_digit, is_hex, hex, key_of, hex_but_hyphen, has_key_format, verify_recovery_key_format,
  generate_recovery_keys, prepend,
}

-- A character that neither trimming nor lower case changes.
abbrev IsStable : ℕ → Type 0
IsStable c = (is_space c ≡ false) × (lower c ≡ c)

hex_digit-IsStable : (n : ℕ) → n < 16 → IsStable (hex_digit n)
unfolding is_space lower
hex_digit-IsStable n h = (ground arith, ground arith)

is_hex-hex_digit : (n : ℕ) → n < 16 → is_hex (hex_digit n) ≡ true
is_hex-hex_digit n h = ground arith

to_lower-IsStable : (t : Text) → All IsStable t → to_lower t ≡ t
unfolding to_lower
to_lower-IsStable [] h = refl
to_lower-IsStable (c ∷ t) h = ap (λ d. d ∷ map lower t) h.0.1 ∙ ap (◌∷◌ c) (to_lower-IsStable t h.1)

no_spaces : (t : Text) → All IsStable t → All (λ c. is_space c ≡ false) t
no_spaces [] h = tt
no_spaces (c ∷ t) h = (h.0.0, no_spaces t h.1)

verify-stable :
    (key : Text)
    → All IsStable key
    → has_key_format key ≡ true
    → verify_recovery_key_format key ≡ true
unfolding verify_recovery_key_format
verify-stable key h f =
    ap (λ t. has_key_format (to_lower t)) (trim_space-lacks key (no_spaces key h))
    ∙ ap has_key_format (to_lower-IsStable key h)
    ∙ f

-- Six bytes.
pub record AreSix (bytes : Text) : Type 0 where
  pub six : length bytes ≡ 6
  pub small : All (λ b. b < 256) bytes

hex-IsStable : (bytes : Text) → All (λ b. b < 256) bytes → All IsStable (hex bytes)
unfolding hex
hex-IsStable [] h = tt
hex-IsStable (b ∷ bytes) h = (
  hex_digit-IsStable (b / 16) (omega (arith, h.0)),
  (hex_digit-IsStable (b % 16) (omega arith), hex-IsStable bytes h.1),
)

hex-hex : (bytes : Text) → All (λ b. b < 256) bytes → All (λ c. is_hex c ≡ true) (hex bytes)
unfolding hex
hex-hex [] h = tt
hex-hex (b ∷ bytes) h = (
  is_hex-hex_digit (b / 16) (omega (arith, h.0)),
  (is_hex-hex_digit (b % 16) (omega arith), hex-hex bytes h.1),
)

-- The twelve digits with a hyphen after the eighth.
formatted :
    (a b c d e f : ℕ)
    → All (λ x. is_hex x ≡ true) (hex (a ∷ b ∷ c ∷ d ∷ e ∷ f ∷ []))
    → has_key_format (key_of (a ∷ b ∷ c ∷ d ∷ e ∷ f ∷ [])) ≡ true
unfolding has_key_format key_of hex hex_but_hyphen
formatted a b c d e f h =
    rw
      (
        h.0, h.1.0, h.1.1.0, h.1.1.1.0, h.1.1.1.1.0, h.1.1.1.1.1.0, h.1.1.1.1.1.1.0,
        h.1.1.1.1.1.1.1.0, h.1.1.1.1.1.1.1.1.0, h.1.1.1.1.1.1.1.1.1.0, h.1.1.1.1.1.1.1.1.1.1.0,
        h.1.1.1.1.1.1.1.1.1.1.1.0,
      )
      refl

All-key :
    (a b c d e f : ℕ)
    → All IsStable (hex (a ∷ b ∷ c ∷ d ∷ e ∷ f ∷ []))
    → All IsStable (key_of (a ∷ b ∷ c ∷ d ∷ e ∷ f ∷ []))
unfolding key_of hex is_space lower
All-key a b c d e f h = (
  h.0,
  (
    h.1.0,
    (
      h.1.1.0,
      (
        h.1.1.1.0,
        (
          h.1.1.1.1.0,
          (
            h.1.1.1.1.1.0,
            (h.1.1.1.1.1.1.0, (h.1.1.1.1.1.1.1.0, ((refl, refl), h.1.1.1.1.1.1.1.1))),
          ),
        ),
      ),
    ),
  ),
)

key_of-verified : (bytes : Text) → AreSix bytes → verify_recovery_key_format (key_of bytes) ≡ true
key_of-verified (a ∷ b ∷ c ∷ d ∷ e ∷ f ∷ []) h =
    verify-stable (key_of (a ∷ b ∷ c ∷ d ∷ e ∷ f ∷ []))
      (All-key a b c d e f (hex-IsStable (a ∷ b ∷ c ∷ d ∷ e ∷ f ∷ []) h.small))
      (formatted a b c d e f (hex-hex (a ∷ b ∷ c ∷ d ∷ e ∷ f ∷ []) h.small))
key_of-verified [] h = absurd (omega (arith, h.six))
key_of-verified (a ∷ []) h = absurd (omega (arith, h.six))
key_of-verified (a ∷ b ∷ []) h = absurd (omega (arith, h.six))
key_of-verified (a ∷ b ∷ c ∷ []) h = absurd (omega (arith, h.six))
key_of-verified (a ∷ b ∷ c ∷ d ∷ []) h = absurd (omega (arith, h.six))
key_of-verified (a ∷ b ∷ c ∷ d ∷ e ∷ []) h = absurd (omega (arith, h.six))
key_of-verified (a ∷ b ∷ c ∷ d ∷ e ∷ f ∷ g ∷ bytes) h = absurd (omega (arith, h.six))

-- What a reading of random bytes may give.
abbrev pub IsDraw : Option Text → Type 0
IsDraw none = Unit
IsDraw (some bytes) = AreSix bytes

abbrev pub AreVerified : List Text → Type 0
AreVerified = All (λ key. verify_recovery_key_format key ≡ true)

prepended :
    (bytes : Text) (draws : List (Option Text)) (o : Option (List Text)) (keys : List Text)
    → AreSix bytes
    → ((later : List Text) → o ≡ some later → AreVerified later × (length later ≡ length draws))
    → prepend (key_of bytes) o ≡ some keys
    → AreVerified keys × (length keys ≡ suc (length draws))
prepended bytes draws none keys six rest h = cc
prepended bytes draws (some later) keys six rest h =
    let same : key_of bytes ∷ later ≡ keys = cc in
    let (verified, long) = rest later refl in
    rw (sym same) ((key_of-verified bytes six, verified), ap suc long)

-- Where every reading gives six bytes or an error, and no error comes up, all the keys that are
-- generated have the format of a recovery key, and there is one for each reading.
pub generate_recovery_keys-AreVerified :
    (draws : List (Option Text)) (keys : List Text)
    → All IsDraw draws
    → generate_recovery_keys draws ≡ some keys
    → AreVerified keys × (length keys ≡ length draws)
unfolding generate_recovery_keys
generate_recovery_keys-AreVerified [] keys ds h =
    let same : [] ≡ keys = cc in rw (sym same) (tt, refl)
generate_recovery_keys-AreVerified (none ∷ draws) keys ds h = cc
generate_recovery_keys-AreVerified (some bytes ∷ draws) keys ds h =
    prepended bytes draws (generate_recovery_keys draws) keys ds.0
      (λ later. generate_recovery_keys-AreVerified draws later ds.1) h
