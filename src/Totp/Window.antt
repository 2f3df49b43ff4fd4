-- ===== src/Totp/Window.antt =====
-- A code is accepted for half a minute of drift either way.
use caspaste.Prelude.{
  ℕ, zero, suc, ◌+◌, ◌-◌, ◌*◌, ◌/◌, ◌%◌, ◌^◌, ◌<◌, ◌≤◌, ◌≡◌, refl, sym, ap, ◌∙◌, ◌⊎◌, inl, inr,
  Bool-cases, true, Option, none, some, List, [], ◌∷◌, map, Text, text_eq, text_eq_refl, length,
  arith,
}
use caspaste.Totp.Codes.{
  Hmac, byte_at, packed, at_offset, truncate, six_digits, big_endian, padded, generate_totp, upper,
  steps_near, tries, with_secret, verify, generate_current_code,
}

abbrev Given : Option ℕ → Type 0
Given o = (n : ℕ) × (o ≡ some n)

byte_at-Given : (i : ℕ) (t : Text) → i < length t → Given (byte_at i t)
unfolding byte_at
byte_at-Given i [] h = absurd (omega (arith, h))
byte_at-Given zero (c ∷ t) h = (c, refl)
byte_at-Given (suc i) (c ∷ t) h = byte_at-Given i t (omega (arith, h))

packed-Given : (a b c d : Option ℕ) → Given a → Given b → Given c → Given d → Given (packed a b c d)
packed-Given a b c d (i, p) (j, q) (k, r) (l, s) =
    (((i % 128 * 256 + j) * 256 + k) * 256 + l, rw (p, q, r, s) refl)

-- The offset is at most 15, so that four bytes follow it in 20.
truncate-Given : (hash : Text) → length hash ≡ 20 → Given (truncate hash)
unfolding truncate at_offset
truncate-Given hash h = from (byte_at-Given (length hash - 1) hash (omega (arith, h)))
  where
    from : Given (byte_at (length hash - 1) hash) → Given (truncate hash)
    from (last, e) =
        let offset = last % 16 in
        let (n, p) =
          packed-Given (byte_at offset hash) (byte_at (offset + 1) hash) (byte_at (offset + 2) hash)
            (byte_at (offset + 3) hash) (byte_at-Given offset hash (omega (arith, h)))
            (byte_at-Given (offset + 1) hash (omega (arith, h)))
            (byte_at-Given (offset + 2) hash (omega (arith, h)))
            (byte_at-Given (offset + 3) hash (omega (arith, h))) in
        (n, ap (at_offset hash) e ∙ p)

-- HMAC-SHA1 gives 20 bytes.
abbrev pub GivesTwenty : Hmac → Type 0
GivesTwenty hmac = (secret text : Text) → length (hmac secret text) ≡ 20

generate_totp-some :
    (hmac : Hmac) (secret : Text) (n : ℕ)
    → GivesTwenty hmac
    → (code : Text) × (generate_totp hmac secret n ≡ some code)
unfolding generate_totp six_digits
generate_totp-some hmac secret n g =
    let (k, e) = truncate-Given (hmac secret (big_endian 8 n)) (g secret (big_endian 8 n)) in
    (padded 6 (k % 10 ^ 6), ap six_digits e)

module _ (hmac : Hmac) (decode : Text → Option Text) (g : GivesTwenty hmac) where
  -- A try that matches ends the loop with success, and a try before it does not end it otherwise.
  tries_here :
      (secret code : Text) (n : ℕ) (ns : List ℕ)
      → generate_totp hmac secret n ≡ some code
      → tries hmac decode secret code (n ∷ ns) ≡ some true
  unfolding tries
  tries_here secret code n ns e = rw e (rw (text_eq_refl code) refl)

  tries_later :
      (secret code : Text) (n : ℕ) (ns : List ℕ)
      → tries hmac decode secret code ns ≡ some true
      → tries hmac decode secret code (n ∷ ns) ≡ some true
  unfolding tries
  tries_later secret code n ns h =
      let (c, e) = generate_totp-some hmac secret n g in
      rw e (rw h (elim (Bool-cases (text_eq c code)) [ inl t ↦ rw t refl | inr f ↦ rw f refl ]))

  -- The counter of one time is among the steps near another that is at most half a minute away.
  near :
      (t t' : ℕ)
      → t ≤ t' + 30
      → t' ≤ t + 30
      → t' < 2 ^ 63
      → (t / 30 ≡ (t' / 30 + (2 ^ 64 - 1)) % 2 ^ 64)
        ⊎ ((t / 30 ≡ t' / 30) ⊎ (t / 30 ≡ (t' / 30 + 1) % 2 ^ 64))
  near t t' before after bound = ground arith

  tries_near :
      (secret code : Text) (n m : ℕ)
      → (n ≡ (m + (2 ^ 64 - 1)) % 2 ^ 64) ⊎ ((n ≡ m) ⊎ (n ≡ (m + 1) % 2 ^ 64))
      → generate_totp hmac secret n ≡ some code
      → tries hmac decode secret code (steps_near m) ≡ some true
  tries_near secret code n m (inl e) h =
      tries_here secret code ((m + (2 ^ 64 - 1)) % 2 ^ 64) (m ∷ (m + 1) % 2 ^ 64 ∷ [])
        (ap (generate_totp hmac secret) (sym e) ∙ h)
  tries_near secret code n m (inr (inl e)) h =
      tries_later secret code ((m + (2 ^ 64 - 1)) % 2 ^ 64) (m ∷ (m + 1) % 2 ^ 64 ∷ []) (
        tries_here secret code m ((m + 1) % 2 ^ 64 ∷ [])
          (ap (generate_totp hmac secret) (sym e) ∙ h))
  tries_near secret code n m (inr (inr e)) h =
      tries_later secret code ((m + (2 ^ 64 - 1)) % 2 ^ 64) (m ∷ (m + 1) % 2 ^ 64 ∷ []) (
        tries_later secret code m ((m + 1) % 2 ^ 64 ∷ []) (
          tries_here secret code ((m + 1) % 2 ^ 64) []
            (ap (generate_totp hmac secret) (sym e) ∙ h)))

  with_secret-accepts :
      (t t' : ℕ) (o : Option Text) (code : Text)
      → t ≤ t' + 30
      → t' ≤ t + 30
      → t' < 2 ^ 63
      → (elim o [ none ↦ none | some bytes ↦ some (generate_totp hmac bytes (t / 30)) ])
        ≡ some (some code)
      → with_secret hmac decode o code t' ≡ some true
  unfolding with_secret
  with_secret-accepts t t' none code before after bound h = cc
  with_secret-accepts t t' (some bytes) code before after bound h =
      tries_near bytes code (t / 30) (t' / 30) (near t t' before after bound) (cc)

  -- If HMAC gives 20 bytes, the code of a secret at one time is accepted for the secret at every time
  -- that is at most 30 seconds earlier or later, and before 2 to the 63rd.
  pub verify-generate_current_code :
      (t t' : ℕ) (secret code : Text)
      → t ≤ t' + 30
      → t' ≤ t + 30
      → t' < 2 ^ 63
      → generate_current_code hmac decode t secret ≡ some (some code)
      → verify hmac decode t' secret code ≡ some true
  unfolding verify generate_current_code
  verify-generate_current_code t t' secret code before after bound h =
      with_secret-accepts t t' (decode (map upper secret)) code before after bound h
