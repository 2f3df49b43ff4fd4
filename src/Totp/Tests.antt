-- ===== src/Totp/Tests.antt =====
-- A code of six digits and two recovery keys. A list of zeros stands for HMAC.
use caspaste.Prelude.{◌≡◌, refl, true, Option, some, [], ◌∷◌, Text, codes, length, arith}
use caspaste.Prelude.Numbers.{trim_space}
use caspaste.Prelude.Strings.{to_lower}
use caspaste.Totp.Codes.{
  Hmac, generate_totp, truncate, at_offset, byte_at, six_digits, padded, generate_current_code,
  verify,
}
use caspaste.Totp.Recovery.{hex, key_of, generate_recovery_keys, normalize_recovery_key}
use caspaste.Totp.Window.{GivesTwenty, verify-generate_current_code}
use caspaste.Totp.Formats.{AreSix, AreVerified, generate_recovery_keys-AreVerified}

abbrev hmac : Hmac
hmac secret text =
    0 ∷ 0 ∷ 0 ∷ 5 ∷ 1 ∷ 7 ∷ 0 ∷ 0 ∷ 0 ∷ 0 ∷ 0 ∷ 0 ∷ 0 ∷ 0 ∷ 0 ∷ 0 ∷ 0 ∷ 0 ∷ 0 ∷ 2 ∷ []

hmac-GivesTwenty : GivesTwenty hmac
hmac-GivesTwenty secret text = refl

abbrev decode : Text → Option Text
decode t = some t

code_at : generate_current_code hmac decode 100 (codes "abc") ≡ some (some (codes "327943"))
unfolding generate_current_code generate_totp truncate at_offset byte_at six_digits padded
code_at = refl

verify-generate_current_code_example :
    verify hmac decode 130 (codes "abc") (codes "327943") ≡ some true
verify-generate_current_code_example =
    verify-generate_current_code hmac decode hmac-GivesTwenty 100 130 (codes "abc") (codes "327943")
      (omega arith) (omega arith) (omega arith) code_at

abbrev bytes : Text
bytes = 0 ∷ 1 ∷ 171 ∷ 255 ∷ 16 ∷ 9 ∷ []

bytes-AreSix : AreSix bytes
bytes-AreSix = record {
  six = refl;
  small =
      (omega arith, (omega arith, (omega arith, (omega arith, (omega arith, (omega arith, tt))))));
}

two_keys :
    generate_recovery_keys (some bytes ∷ some bytes ∷ [])
    ≡ some (codes "0001abff-1009" ∷ codes "0001abff-1009" ∷ [])
unfolding generate_recovery_keys key_of hex
two_keys = refl

generate_recovery_keys-AreVerified_run :
    AreVerified (codes "0001abff-1009" ∷ codes "0001abff-1009" ∷ [])
    × (length (bytes ∷ bytes ∷ []) ≡ 2)
generate_recovery_keys-AreVerified_run =
    generate_recovery_keys-AreVerified (some bytes ∷ some bytes ∷ [])
      (codes "0001abff-1009" ∷ codes "0001abff-1009" ∷ []) (bytes-AreSix, (bytes-AreSix, tt))
      two_keys

normalized : normalize_recovery_key (codes " A1B2 C3D4-e5f6\n") ≡ codes "a1b2c3d4-e5f6"
unfolding normalize_recovery_key trim_space to_lower
normalized = refl
