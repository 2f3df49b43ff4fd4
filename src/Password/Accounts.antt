-- ===== src/Password/Accounts.antt =====
-- Logins: `Check`, `NeedsRehash`, `RehashPassword`, `LoadAndCheckWithRehash`, and the credentials
-- that are generated. `bcrypt.CompareHashAndPassword` is the parameter `bcrypt`.
use caspaste.Prelude.{
  ℕ, zero, suc, ◌%◌, ◌||◌, ◌&&◌, not, Bool, true, false, if◌then◌else◌, Option, none, some, [], ◌∷◌,
  ◌++◌, Text, codes, has_prefix,
}
use caspaste.Password.Entries.{
  Entries, Error, Result, ok, err, not_written, no_randomness, lookup, insert, load_file, content,
}
use caspaste.Password.Argon.{IdKey, Run, done, panic, hash_password, verify_argon2_hash}

abbrev pub is_argon2 : Text → Bool
is_argon2 h = has_prefix (codes "$argon2id$") h

abbrev pub is_bcrypt : Text → Bool
is_bcrypt h =
    has_prefix (codes "$2a$") h || has_prefix (codes "$2b$") h || has_prefix (codes "$2y$") h

abbrev char_at : ℕ → Text → ℕ
char_at i [] = 0
char_at zero (c ∷ cs) = c
char_at (suc i) (c ∷ cs) = char_at i cs

abbrev pub charset : Text
charset = codes "abcdefghijklmnopqrstuvwxyzABCDEFGHIJKLMNOPQRSTUVWXYZ0123456789!@#$%^&*"

abbrev pub chars_of : Text → Text
chars_of [] = []
chars_of (b ∷ bs) = char_at (b % 70) charset ∷ chars_of bs

-- `GenerateRandomPassword`, of the bytes that `rand.Read` gives.
unfoldable pub generate_random_password : Option Text → Result Text
generate_random_password none = err no_randomness
generate_random_password (some bytes) = ok (chars_of bytes)

-- What `os.WriteFile` came to: the file is written, or it failed and the file holds what it left.
pub data Write : Type 0 where
  written : Write
  failed : Option Text → Write

abbrev pub write_password_file : Write → Text → Option Text × Option Error
write_password_file (failed left) text = (left, some not_written)
write_password_file written text = (some text, none)

module _ (id_key : IdKey) (bcrypt : Text → Text → Bool) where
  unfoldable pub check_hash : Option Text → Text → Run Bool
  unfolding has_prefix
  check_hash none pass = done false
  check_hash (some h) pass =
      if is_argon2 h
      then verify_argon2_hash id_key h pass
      else if is_bcrypt h
      then done (bcrypt h pass)
      else done false

  -- The hash that is verified for an unknown user, to take as long, has no influence on the answer.
  unfoldable pub check : Entries → Text → Text → Run Bool
  unfolding check_hash
  check d user pass = check_hash (lookup user d) pass

  unfoldable pub hash_needs : Option Text → Bool
  hash_needs none = false
  hash_needs (some h) = not (is_argon2 h) && is_bcrypt h

  unfoldable pub needs_rehash : Entries → Text → Bool
  unfolding hash_needs has_prefix
  needs_rehash d user = hash_needs (lookup user d)

  abbrev answered : Run Bool → Run (Result Bool)
  answered panic = panic
  answered (done b) = done (ok b)

  abbrev checked : Result Entries → Text → Text → Run (Result Bool)
  checked (err e) user pass = done (err e)
  checked (ok d) user pass = answered (check d user pass)

  unfoldable pub load_and_check : Option Text → Text → Text → Run (Result Bool)
  load_and_check file user pass = checked (load_file file) user pass

  -- What a login answers.
  abbrev pub and_rehash : Bool → Run Bool → Run (Result (Bool × Bool))
  and_rehash needs panic = panic
  and_rehash needs (done false) = done (ok (false, false))
  and_rehash needs (done true) = done (ok (true, needs))

  abbrev pub login : Result Entries → Text → Text → Run (Result (Bool × Bool))
  login (err e) user pass = done (err e)
  login (ok d) user pass = and_rehash (needs_rehash d user) (check d user pass)

  unfoldable pub load_and_check_with_rehash : Option Text → Text → Text → Run (Result (Bool × Bool))
  load_and_check_with_rehash file user pass = login (load_file file) user pass

  abbrev pub stored :
      Write → Option Text → Text → Entries → Run (Result Text) → Run (Option Text × Option Error)
  stored o file user d panic = panic
  stored o file user d (done (err e)) = done (file, some e)
  stored o file user d (done (ok h)) = done (write_password_file o (content (insert user h d)))

  abbrev pub rehashed :
      Write
      → Option Text
      → Option Text
      → Text
      → Text
      → Result Entries
      → Run (Option Text × Option Error)
  rehashed o salt file user pass (err e) = done (file, some e)
  rehashed o salt file user pass (ok d) = stored o file user d (hash_password id_key salt pass)

  -- `RehashPassword`: the file after it, and the error.
  unfoldable pub rehash_password :
      Write → Option Text → Option Text → Text → Text → Run (Option Text × Option Error)
  rehash_password o salt file user pass = rehashed o salt file user pass (load_file file)

  -- `GenerateCredentialsFile`: the name and the password, or the error, and the file.
  abbrev generated :
      Write → Option Text → Text → Run (Result Text) → Run (Option Text × Result (Text × Text))
  generated o file pass panic = panic
  generated o file pass (done (err e)) = done (file, err e)
  generated (failed left) file pass (done (ok h)) = done (left, err not_written)
  generated written file pass (done (ok h)) =
      done (some (codes "admin:" ++ (h ++ b'\n' ∷ [])), ok (codes "admin", pass))

  abbrev with_password :
      Write → Option Text → Option Text → Result Text → Run (Option Text × Result (Text × Text))
  with_password o salt file (err e) = done (file, err e)
  with_password o salt file (ok pass) = generated o file pass (hash_password id_key salt pass)

  unfoldable pub generate_credentials_file :
      Write → Option Text → Option Text → Option Text → Run (Option Text × Result (Text × Text))
  unfolding generate_random_password
  generate_credentials_file o bytes salt file =
      with_password o salt file (generate_random_password bytes)

abbrev has_users : Result Entries → Bool
has_users (err e) = false
has_users (ok []) = false
has_users (ok (e ∷ d)) = true

-- `FileExistsAndHasUsers`, for a path that is not empty.
unfoldable pub file_exists_and_has_users : Option Text → Bool
file_exists_and_has_users file = has_users (load_file file)
