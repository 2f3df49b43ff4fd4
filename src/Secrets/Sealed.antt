-- ===== src/Secrets/Sealed.antt =====
-- What is encrypted can be read back.
use caspaste.Prelude.{
  ℕ, zero, suc, ◌-◌, ◌<◌, ◌||◌, ◌≡◌, refl, sym, ap, ◌∙◌, ltb, Bool, true, false, Option, none, some,
  [], ◌∷◌, ◌++◌, Text, text_eq, text_eq_refl, codes, length, length-append, take, drop, Map, put,
  arith,
}
use caspaste.Prelude.Strings.{has_suffix}
use caspaste.Secrets.Encryption.{
  Result, ok, err, invalid_password, opened, encrypt_data, decrypt_data, encrypt_file, decrypt_file,
  without_enc,
}

take-append : (n : ℕ) (s t : Text) → length s ≡ n → take n (s ++ t) ≡ s
take-append zero [] t h = refl
take-append zero (c ∷ s) t h = absurd (omega (arith, h))
take-append (suc n) [] t h = absurd (omega (arith, h))
take-append (suc n) (c ∷ s) t h = ap (◌∷◌ c) (take-append n s t (omega (arith, h)))

drop-append : (n : ℕ) (s t : Text) → length s ≡ n → drop n (s ++ t) ≡ t
drop-append zero [] t h = refl
drop-append zero (c ∷ s) t h = absurd (omega (arith, h))
drop-append (suc n) [] t h = absurd (omega (arith, h))
drop-append (suc n) (c ∷ s) t h = drop-append n s t (omega (arith, h))

has_suffix-append : (s t : Text) → has_suffix s (t ++ s) ≡ true
unfolding has_suffix
has_suffix-append [] [] = refl
has_suffix-append (c ∷ s) [] = rw (text_eq_refl (c ∷ s)) refl
has_suffix-append s (c ∷ t) = rw (has_suffix-append s t) (or_true (text_eq s (c ∷ (t ++ s))))
  where
    or_true : (b : Bool) → (b || true) ≡ true
    or_true true = refl
    or_true false = refl

-- The name of the encrypted file gives the name back.
without_enc-append : (name : Text) → 0 < length name → without_enc (name ++ codes ".enc") ≡ name
unfolding without_enc
without_enc-append name h =
    let enc = codes ".enc" in
    let size = length-append name enc in
    let long : ltb 4 (length (name ++ enc)) ≡ true = ground (arith, size, h) in
    let same : length (name ++ enc) - 4 ≡ length name = omega (arith, size) in
    rw long (
      rw (has_suffix-append enc name)
        (ap (λ n. take n (name ++ enc)) same ∙ take-append (length name) name enc refl))

module _ (id_key : Text → Text → Text) (seal : Text → Text → Text → Text)
    (open_sealed : Text → Text → Text → Option Text) where
  ok_inj : {a b : Text} → Result.ok a ≡ Result.ok b → a ≡ b
  ok_inj e = cc

  sealed : Text → Text → Text → Text → Text
  sealed salt iv plaintext password = salt ++ (iv ++ seal (id_key password salt) iv plaintext)

  -- What decryption makes of encrypted data, with any password.
  decrypt_data-sealed :
      (salt iv plaintext password other : Text)
      → length salt ≡ 16
      → length iv ≡ 12
      → decrypt_data id_key seal open_sealed (sealed salt iv plaintext password) other
        ≡ opened id_key seal open_sealed
            (open_sealed (id_key other salt) iv (seal (id_key password salt) iv plaintext))
  unfolding decrypt_data sealed
  decrypt_data-sealed salt iv plaintext password other hs hi =
      let box = seal (id_key password salt) iv plaintext in
      let body = iv ++ box in
      let size = length-append salt body in
      let size' = length-append iv box in
      let long : ltb (length (salt ++ body)) 28 ≡ false = ground (arith, size, size', hs, hi) in
      let rest : ltb (length body) 12 ≡ false = ground (arith, size', hi) in
      rw long (
        rw (drop-append 16 salt body hs) (
          rw rest (
            rw (take-append 16 salt body hs)
              (rw (take-append 12 iv box hi) (rw (drop-append 12 iv box hi) refl)))))

  -- Encrypted data is decrypted again with its password, if AES-GCM opens what it seals; with another
  -- password it is refused as such, if AES-GCM refuses the key.
  pub decrypt_data-encrypt_data :
      ((key iv plaintext : Text) → open_sealed key iv (seal key iv plaintext) ≡ some plaintext)
      → (salt iv plaintext password other : Text) → length salt ≡ 16
      → length iv ≡ 12
      → open_sealed (id_key other salt) iv (seal (id_key password salt) iv plaintext) ≡ none
      → (data_ : Text)
      → encrypt_data id_key seal open_sealed (some salt) (some iv) plaintext password ≡ ok data_
      → (decrypt_data id_key seal open_sealed data_ password ≡ ok plaintext)
        × (decrypt_data id_key seal open_sealed data_ other ≡ err invalid_password)
  unfolding encrypt_data sealed
  decrypt_data-encrypt_data law salt iv plaintext password other hs hi refusal data_ h =
      let same : sealed salt iv plaintext password ≡ data_ = ok_inj h in
      (
        ap (λ d. decrypt_data id_key seal open_sealed d password) (sym same)
            ∙ decrypt_data-sealed salt iv plaintext password password hs hi
            ∙ ap (opened id_key seal open_sealed) (law (id_key password salt) iv plaintext),
        ap (λ d. decrypt_data id_key seal open_sealed d other) (sym same)
            ∙ decrypt_data-sealed salt iv plaintext password other hs hi
            ∙ ap (opened id_key seal open_sealed) refusal,
      )

  decrypt_at :
      (base : Text → Text) (join : Text → Text → Text) (files : Map Text)
      (path name dir data_ plaintext password : Text)
      → files path ≡ some data_
      → decrypt_data id_key seal open_sealed data_ password ≡ ok plaintext
      → without_enc (base path) ≡ name
      → decrypt_file id_key seal open_sealed base join none files path password dir
        ≡ (put (join dir name) plaintext files, ok (join dir name))
  unfolding decrypt_file
  decrypt_at base join files path name dir data_ plaintext password f d n = rw f (rw n (rw d refl))

  -- A file that was encrypted beside itself is restored into a directory under its own name, with its
  -- content. Both files are written, AES-GCM opens what it seals, and the last part of the path with
  -- `.enc` is the name with `.enc`.
  pub decrypt_file-encrypt_file :
      (base : Text → Text) (join : Text → Text → Text)
      → ((key iv plaintext : Text) → open_sealed key iv (seal key iv plaintext) ≡ some plaintext)
      → (files : Map Text) (path name dir salt iv plaintext password : Text)
      → files path ≡ some plaintext
      → length salt ≡ 16
      → length iv ≡ 12
      → base (path ++ codes ".enc") ≡ name ++ codes ".enc"
      → 0 < length name
      → let files' =
          (encrypt_file id_key seal open_sealed none (some salt) (some iv) files path password).0 in
        let (restored, r) =
          decrypt_file id_key seal open_sealed base join none files'
            (path ++ codes ".enc")
            password
            dir in
        (r ≡ ok (join dir name)) × (restored (join dir name) ≡ some plaintext)
  unfolding encrypt_file decrypt_file encrypt_data sealed
  decrypt_file-encrypt_file base join law files path name dir salt iv plaintext password found hs hi
        named filled =
      let path' = path ++ codes ".enc" in
      let data_ = sealed salt iv plaintext password in
      let stored : encrypt_file id_key seal open_sealed none (some salt) (some iv) files path
            password
          ≡ (put path' data_ files, ok path') =
        rw found refl in
      let at : put path' data_ files path' ≡ some data_ = rw (text_eq_refl path') refl in
      let reads =
        decrypt_data-sealed salt iv plaintext password password hs hi
        ∙ ap (opened id_key seal open_sealed) (law (id_key password salt) iv plaintext) in
      let restored =
        ap (λ p. decrypt_file id_key seal open_sealed base join none p.0 path' password dir) stored
        ∙ decrypt_at base join (put path' data_ files) path' name dir data_ plaintext password at
            reads (ap without_enc named ∙ without_enc-append name filled) in
      (
        ap (λ p. p.1) restored,
        ap (λ p. p.0 (join dir name)) restored ∙ rw (text_eq_refl (join dir name)) refl,
      )
