-- ===== src/Secrets/Encryption.antt =====
-- src/backup/encryption.go. `id_key` is `argon2.IDKey` with the parameters of this file; `seal` and
-- `open` are `Seal` and `Open` of AES-GCM by key and nonce, whose key and nonce have the sizes that
-- the ciphers want, so that they are created.
use caspaste.Prelude.{
  ℕ, ◌+◌, ◌-◌, ltb, ◌&&◌, if◌then◌else◌, Option, none, some, ◌++◌, Text, text_eq, codes, length,
  take, drop, Map, put,
}
use caspaste.Prelude.Strings.{has_suffix}

pub data Error : Type 0 where
  read_failed no_randomness invalid_backup_file invalid_password write_failed : Error

pub data Result {ℓ} (A : Type ℓ) : Type ℓ where
  ok : A → Result A
  err : Error → Result A

abbrev pub salt_size : ℕ
salt_size = 16

abbrev pub nonce_size : ℕ
nonce_size = 12

-- The name without `.enc`.
unfoldable pub without_enc : Text → Text
unfolding has_suffix
without_enc name =
    if ltb 4 (length name) && has_suffix (codes ".enc") name
    then take (length name - 4) name
    else name

module _ (id_key : Text → Text → Text) (seal : Text → Text → Text → Text)
    (open_sealed : Text → Text → Text → Option Text) where
  -- The salt and the nonce are what the two readings of random bytes give.
  unfoldable pub encrypt_data : Option Text → Option Text → Text → Text → Result Text
  encrypt_data none drawn plaintext password = err no_randomness
  encrypt_data (some salt) none plaintext password = err no_randomness
  encrypt_data (some salt) (some nonce) plaintext password =
      ok (salt ++ (nonce ++ seal (id_key password salt) nonce plaintext))

  abbrev pub opened : Option Text → Result Text
  opened none = err invalid_password
  opened (some plaintext) = ok plaintext

  unfoldable pub decrypt_data : Text → Text → Result Text
  decrypt_data data_ password =
      if ltb (length data_) (salt_size + nonce_size)
      then err invalid_backup_file
      else (let salt = take salt_size data_ in
          let ciphertext = drop salt_size data_ in
          if ltb (length ciphertext) nonce_size
          then err invalid_backup_file
          else opened (
              open_sealed (id_key password salt) (take nonce_size ciphertext)
                (drop nonce_size ciphertext)))

  -- The files by their paths, and whether `os.WriteFile` succeeds; where it fails the file may hold
  -- anything.
  abbrev pub write_output : Option (Option Text) → Text → Text → Map Text → Map Text × Result Text
  write_output none path content files = (put path content files, ok path)
  write_output (some left) path content files =
      ((λ p. if text_eq p path then left else files p), err write_failed)

  abbrev pub written : Option (Option Text) → Text → Result Text → Map Text → Map Text × Result Text
  written o path (err e) files = (files, err e)
  written o path (ok content) files = write_output o path content files

  abbrev encrypted :
      Option (Option Text)
      → Option Text
      → Option Text
      → Map Text
      → Text
      → Text
      → Option Text
      → Map Text × Result Text
  encrypted o salt drawn files path password none = (files, err read_failed)
  encrypted o salt drawn files path password (some plaintext) =
      written o (path ++ codes ".enc") (encrypt_data salt drawn plaintext password) files

  -- `EncryptFile`: the path of the new file.
  unfoldable pub encrypt_file :
      Option (Option Text)
      → Option Text
      → Option Text
      → Map Text
      → Text
      → Text
      → Map Text × Result Text
  unfolding encrypt_data text_eq
  encrypt_file o salt drawn files path password =
      encrypted o salt drawn files path password (files path)

  module _ (base : Text → Text) (join : Text → Text → Text) where
    abbrev decrypted :
        Option (Option Text) → Map Text → Text → Text → Text → Option Text → Map Text × Result Text
    decrypted o files path password dir none = (files, err read_failed)
    decrypted o files path password dir (some data_) =
        written o (join dir (without_enc (base path))) (decrypt_data data_ password) files

    -- `DecryptFile`, with `filepath.Base` and `filepath.Join`.
    unfoldable pub decrypt_file :
        Option (Option Text) → Map Text → Text → Text → Text → Map Text × Result Text
    unfolding decrypt_data without_enc text_eq
    decrypt_file o files path password dir = decrypted o files path password dir (files path)
