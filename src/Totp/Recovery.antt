-- ===== src/Totp/Recovery.antt =====
-- `GenerateRecoveryKeys`, `VerifyRecoveryKeyFormat`, `NormalizeRecoveryKey` and `HashRecoveryKey`.
use caspaste.Prelude.{
  ℕ, zero, suc, ◌+◌, ◌-◌, ◌/◌, ◌%◌, ltb, leb, ◌==◌, ◌&&◌, ◌||◌, Bool, true, if◌then◌else◌, Option,
  none, some, List, [], ◌∷◌, ◌++◌, Text, length, take, drop,
}
use caspaste.Prelude.Numbers.{trim_space}
use caspaste.Prelude.Strings.{to_lower}

abbrev pub hex_digit : ℕ → ℕ
hex_digit n = if ltb n 10 then b'0' + n else b'a' + (n - 10)

-- `%x`.
unfoldable pub hex : Text → Text
hex [] = []
hex (c ∷ t) = hex_digit (c / 16) ∷ hex_digit (c % 16) ∷ hex t

unfoldable pub key_of : Text → Text
unfolding hex
key_of bytes = take 8 (hex bytes) ++ b'-' ∷ drop 8 (hex bytes)

abbrev pub prepend : Text → Option (List Text) → Option (List Text)
prepend key none = none
prepend key (some keys) = some (key ∷ keys)

-- One reading of 6 random bytes for each key; `none` is an error of one.
unfoldable pub generate_recovery_keys : List (Option Text) → Option (List Text)
unfolding key_of
generate_recovery_keys [] = some []
generate_recovery_keys (none ∷ draws) = none
generate_recovery_keys (some bytes ∷ draws) = prepend (key_of bytes) (generate_recovery_keys draws)

abbrev pub is_hex : ℕ → Bool
is_hex c = leb b'0' c && leb c b'9' || (leb b'a' c && leb c b'f')

-- The loop over the characters, of which the first has the index `i`.
unfoldable pub hex_but_hyphen : ℕ → Text → Bool
hex_but_hyphen i [] = true
hex_but_hyphen i (c ∷ t) = (i == 8 || is_hex c) && hex_but_hyphen (i + 1) t

abbrev byte_or : ℕ → Text → ℕ
byte_or i [] = 0
byte_or zero (c ∷ t) = c
byte_or (suc i) (c ∷ t) = byte_or i t

unfoldable pub has_key_format : Text → Bool
unfolding hex_but_hyphen
has_key_format key = length key == 13 && byte_or 8 key == b'-' && hex_but_hyphen 0 key

unfoldable pub verify_recovery_key_format : Text → Bool
unfolding has_key_format trim_space to_lower
verify_recovery_key_format key = has_key_format (to_lower (trim_space key))

without_spaces : Text → Text
without_spaces [] = []
without_spaces (c ∷ t) = let rest = without_spaces t in if c == b' ' then rest else c ∷ rest

unfoldable pub normalize_recovery_key : Text → Text
unfolding without_spaces trim_space to_lower
normalize_recovery_key key = to_lower (without_spaces (trim_space key))

-- `sum` is SHA-256 and its digits.
unfoldable pub hash_recovery_key : (Text → Text) → Text → Text
unfolding without_spaces to_lower
hash_recovery_key sum key = sum (to_lower (without_spaces key))
