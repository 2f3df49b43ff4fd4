-- ===== src/Totp/Codes.antt =====
-- `GenerateSecret`, `generateTOTP`, `Verify` and `GenerateCurrentCode`. In codes `none` is a panic, for an index that is out of
-- range in the result of HMAC.
use caspaste.Prelude.{
  ℕ, zero, suc, ◌+◌, ◌-◌, ◌*◌, ◌/◌, ◌%◌, ◌^◌, leb, ◌&&◌, Bool, true, false, if◌then◌else◌, Option,
  none, some, List, [], ◌∷◌, ◌++◌, map, Text, text_eq, codes, length,
}

unfoldable pub byte_at : ℕ → Text → Option ℕ
byte_at i [] = none
byte_at zero (c ∷ t) = some c
byte_at (suc i) (c ∷ t) = byte_at i t

-- `binary.BigEndian`, of the last bytes of a number.
unfoldable pub big_endian : ℕ → ℕ → Text
big_endian zero n = []
big_endian (suc k) n = big_endian k (n / 256) ++ n % 256 ∷ []

abbrev pub packed : Option ℕ → Option ℕ → Option ℕ → Option ℕ → Option ℕ
packed (some a) (some b) (some c) (some d) = some (((a % 128 * 256 + b) * 256 + c) * 256 + d)
packed _ _ _ _ = none

unfoldable pub at_offset : Text → Option ℕ → Option ℕ
unfolding byte_at
at_offset hash none = none
at_offset hash (some last) =
    let offset = last % 16 in
    packed (byte_at offset hash) (byte_at (offset + 1) hash) (byte_at (offset + 2) hash)
      (byte_at (offset + 3) hash)

-- The dynamic truncation.
unfoldable pub truncate : Text → Option ℕ
unfolding byte_at at_offset
truncate hash = at_offset hash (byte_at (length hash - 1) hash)

-- `%0*d`, of a number that has no more digits.
unfoldable pub padded : ℕ → ℕ → Text
padded zero n = []
padded (suc k) n = padded k (n / 10) ++ (b'0' + n % 10) ∷ []

unfoldable pub six_digits : Option ℕ → Option Text
unfolding padded
six_digits none = none
six_digits (some n) = some (padded 6 (n % 10 ^ 6))

abbrev pub Hmac : Type 0
Hmac = Text → Text → Text

unfoldable pub generate_totp : Hmac → Text → ℕ → Option Text
unfolding truncate six_digits big_endian
generate_totp hmac secret counter = six_digits (truncate (hmac secret (big_endian 8 counter)))

-- `strings.ToUpper`.
unfoldable pub upper : ℕ → ℕ
upper c = if leb b'a' c && leb c b'z' then c - 32 else c

-- The steps before, at and after a counter, as `uint64`.
abbrev pub steps_near : ℕ → List ℕ
steps_near counter = (counter + (2 ^ 64 - 1)) % 2 ^ 64 ∷ counter ∷ (counter + 1) % 2 ^ 64 ∷ []

abbrev pub matched : Text → Option Text → Option Bool → Option Bool
matched code none later = none
matched code (some expected) later = if text_eq expected code then some true else later

module _ (hmac : Hmac) (decode : Text → Option Text) where
  -- The loop over the steps.
  unfoldable pub tries : Text → Text → List ℕ → Option Bool
  unfolding generate_totp
  tries secret code [] = some false
  tries secret code (n ∷ ns) = matched code (generate_totp hmac secret n) (tries secret code ns)

  unfoldable pub with_secret : Option Text → Text → ℕ → Option Bool
  unfolding tries
  with_secret none code now = some false
  with_secret (some secret) code now = tries secret code (steps_near (now / 30))

  unfoldable pub verify : ℕ → Text → Text → Option Bool
  unfolding with_secret upper
  verify now secret code = with_secret (decode (map upper secret)) code now

  -- The first `none` is the error of a secret that does not decode.
  unfoldable pub generate_current_code : ℕ → Text → Option (Option Text)
  unfolding generate_totp upper
  generate_current_code now secret = elim (decode (map upper secret)) [
    | none ↦ none
    | some bytes ↦ some (generate_totp hmac bytes (now / 30))
  ]

unfoldable pub get_current_time_step : ℕ → ℕ
get_current_time_step now = now / 30

unfoldable pub get_remaining_seconds : ℕ → ℕ
get_remaining_seconds now = 30 - now % 30

pub record TotpSetup : Type 0 where
  pub secret : Text
  pub qr_code_url : Text
  pub issuer : Text
  pub account : Text

abbrev setup : Text → Text → Text → TotpSetup
setup secret issuer account = record {
  secret = secret;
  qr_code_url =
      codes "otpauth://totp/"
      ++ (issuer
          ++ (codes ":"
              ++ (account
                  ++ (codes "?secret="
                      ++ (secret
                          ++ (codes "&issuer=" ++ (issuer ++ codes "&digits=6&period=30")))))));
  issuer = issuer;
  account = account;
}

-- `GenerateSecret`, of the 20 bytes that `rand.Read` gives; `none` is its error. Neither name is
-- escaped in the URL.
unfoldable pub generate_secret : (Text → Text) → Option Text → Text → Text → Option TotpSetup
generate_secret encode none issuer account = none
generate_secret encode (some bytes) issuer account = some (setup (encode bytes) issuer account)
