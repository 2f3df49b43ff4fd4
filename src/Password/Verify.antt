-- ===== src/Password/Verify.antt =====
-- A hash that `HashPassword` makes is verified against the key of the password that is given.
use caspaste.Prelude.{
  ℕ, ◌==◌, ◌≡◌, refl, ap, ◌∙◌, true, false, some, List, [], ◌∷◌, ◌++◌, Text, codes, lacks, length,
  split_on, split_on-append, split_on-lacks, has_prefix,
}
use caspaste.Prelude.Base64.{
  raw_base64, raw_decode, AreBytes, raw_decode-raw_base64, lacks-raw_base64, base64_digit,
  base64_digit-ne,
}
use caspaste.Prelude.Numbers.{is_space}
use caspaste.Password.Argon.{
  IdKey, parameters, argon_key_len, scan_version, scan_parameters, with_parts, verify_parts,
  verify_argon2_hash, compared, literal, scan_int, scan_unsigned, skip_space, scan_digits, unsigned,
  after_sign,
}
use caspaste.Password.Files.{IsPlain, lacks-append}

-- The hash of a key under a salt.
abbrev pub hash_of : Text → Text → Text
hash_of salt key = parameters ++ (raw_base64 salt ++ b'$' ∷ raw_base64 key)

parts_of_hash :
    (salt key : Text)
    → split_on b'$' (hash_of salt key)
      ≡ []
        ∷ codes "argon2id"
        ∷ codes "v=19"
        ∷ codes "m=65536,t=3,p=4"
        ∷ raw_base64 salt
        ∷ raw_base64 key
        ∷ []
unfolding split_on
parts_of_hash salt key = prefix_parts ∙ ap after_prefix tail_parts
  where
    after_prefix : List Text → List Text
    after_prefix ws = [] ∷ codes "argon2id" ∷ codes "v=19" ∷ codes "m=65536,t=3,p=4" ∷ ws

    prefix_parts :
        split_on b'$' (hash_of salt key)
        ≡ after_prefix (split_on b'$' (raw_base64 salt ++ b'$' ∷ raw_base64 key))
    prefix_parts = refl

    tail_parts :
        split_on b'$' (raw_base64 salt ++ b'$' ∷ raw_base64 key)
        ≡ raw_base64 salt ∷ raw_base64 key ∷ []
    tail_parts =
        split_on-append b'$' (raw_base64 salt) (raw_base64 key)
          (lacks-raw_base64 b'$' (λ n. (base64_digit-ne n).0) salt)
        ∙ ap (◌∷◌ (raw_base64 salt)) (
            split_on-lacks b'$' (raw_base64 key)
              (lacks-raw_base64 b'$' (λ n. (base64_digit-ne n).0) key))

version_scanned : scan_version (codes "v=19") ≡ some (19, [])
unfolding scan_version literal scan_int skip_space is_space after_sign unsigned scan_digits
    has_prefix
version_scanned = refl

parameters_scanned : scan_parameters (codes "m=65536,t=3,p=4") ≡ some (65536, 3, 4)
unfolding scan_parameters literal scan_unsigned skip_space is_space unsigned scan_digits has_prefix
parameters_scanned = refl

module _ (id_key : IdKey) (salt key p : Text) (long : length key ≡ argon_key_len)
    (bytes_salt : AreBytes salt) (bytes_key : AreBytes key) where
  -- The verification of the hash of a key derives a key with the parameters, the salt and the
  -- length that the hash was made with, and compares.
  pub verify_hash_of :
      verify_argon2_hash id_key (hash_of salt key) p ≡ compared key (id_key p salt 3 65536 4 32)
  unfolding verify_argon2_hash verify_parts
  verify_hash_of =
      ap (verify_parts id_key p) (parts_of_hash salt key)
      ∙ ap
          (λ v.
            with_parts id_key p v (scan_parameters (codes "m=65536,t=3,p=4"))
              (raw_decode (raw_base64 salt)) (raw_decode (raw_base64 key)))
          version_scanned
      ∙ ap
          (λ v.
            with_parts id_key p (some (19, [])) v (raw_decode (raw_base64 salt))
              (raw_decode (raw_base64 key)))
          parameters_scanned
      ∙ ap
          (λ v.
            with_parts id_key p (some (19, [])) (some (65536, 3, 4)) v
              (raw_decode (raw_base64 key)))
          (raw_decode-raw_base64 salt bytes_salt)
      ∙ ap (with_parts id_key p (some (19, [])) (some (65536, 3, 4)) (some salt))
          (raw_decode-raw_base64 key bytes_key)
      ∙ ap (λ n. compared key (id_key p salt 3 65536 4 n)) long

lacks-tail :
    (s : ℕ)
    → ((n : ℕ) → (base64_digit n == s) ≡ false)
    → (b'$' == s) ≡ false
    → (salt key : Text) → lacks s (raw_base64 salt ++ b'$' ∷ raw_base64 key) ≡ true
lacks-tail s e d salt key =
    lacks-append s (raw_base64 salt) (b'$' ∷ raw_base64 key) (lacks-raw_base64 s e salt)
      (rw d (lacks-raw_base64 s e key))

-- A hash can be a field of the file.
pub hash_of-IsPlain : (salt key : Text) → IsPlain (hash_of salt key)
hash_of-IsPlain salt key =
    let tail = raw_base64 salt ++ b'$' ∷ raw_base64 key in
    (
      lacks-append b':' parameters tail refl
          (lacks-tail b':' (λ n. (base64_digit-ne n).1) refl salt key),
      lacks-append b'\n' parameters tail refl
          (lacks-tail b'\n' (λ n. (base64_digit-ne n).2) refl salt key),
    )
