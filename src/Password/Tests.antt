-- ===== src/Password/Tests.antt =====
-- The password file on examples: bytes of keys stand for Argon2id.
use caspaste.Prelude.{
  ℕ, ◌%◌, ◌≡◌, ltb, refl, ◌&&◌, Bool, true, false, Option, none, some, [], ◌∷◌, ◌++◌, Text, text_eq,
  codes, split_on, arith,
}
use caspaste.Prelude.Base64.{AreBytes}
use caspaste.Password.Entries.{
  Entries, ok, err, bad_line, overriding, lookup, add_line, load_lines, load_file, content,
}
use caspaste.Password.Argon.{IdKey, done}
use caspaste.Password.Accounts.{
  load_and_check_with_rehash, rehash_password, written, file_exists_and_has_users,
}
use caspaste.Password.Files.{IsWritable, load_file-content}
use caspaste.Password.Login.{rewritten, rehash_password-login}

are_bytes : Text → Bool
are_bytes [] = true
are_bytes (c ∷ t) = ltb c 256 && are_bytes t

are_bytes-AreBytes : (t : Text) → are_bytes t ≡ true → AreBytes t
unfolding are_bytes
are_bytes-AreBytes [] h = tt
are_bytes-AreBytes (c ∷ t) h = (ground (arith, h), are_bytes-AreBytes t (ground (arith, h)))

abbrev key_of : ℕ → Text
key_of n = n ∷ codes "0123456789abcdefghijklmnopqrstu"

abbrev id_key : IdKey
id_key [] salt time memory threads long = some (key_of 0)
id_key (c ∷ p) salt time memory threads long = some (key_of (c % 256))

abbrev bcrypt : Text → Text → Bool
bcrypt h p = text_eq h (codes "$2a$10$" ++ p)

abbrev salt : Text
salt = codes "0123456789abcdef"

abbrev users : Entries
users = (codes "root", codes "$2a$10$toor") ∷ (codes "guest", codes "$2b$x") ∷ []

abbrev file : Text
file = codes "root:$2a$10$toor\nguest:$2b$x\n"

file-content : content users ≡ file
unfolding content
file-content = refl

users-IsWritable : IsWritable users
unfolding text_eq
users-IsWritable = record {
  plain = (((refl, refl), (refl, refl)), (((refl, refl), (refl, refl)), tt));
  distinct = ((refl, tt), (tt, tt));
}

load_file-content_example : load_file (some (content users)) ≡ ok users
load_file-content_example = load_file-content users users-IsWritable

blank_lines : load_file (some (codes "\na:b\n\n")) ≡ ok ((codes "a", codes "b") ∷ [])
unfolding load_file load_lines split_on add_line lookup
blank_lines = refl

no_colon : load_file (some (codes "a:b\nab\n")) ≡ err (bad_line 1)
unfolding load_file load_lines split_on add_line lookup
no_colon = refl

twice : load_file (some (codes "a:b\na:c\n")) ≡ err (overriding (codes "a") 1)
unfolding load_file load_lines split_on add_line lookup text_eq
twice = refl

only_blank : file_exists_and_has_users (some (codes "\n\n")) ≡ false
unfolding file_exists_and_has_users load_file load_lines split_on
only_blank = refl

loads : load_file (some file) ≡ ok users
unfolding load_file load_lines split_on add_line lookup text_eq
loads = refl

found : lookup (codes "root") users ≡ some (codes "$2a$10$toor")
unfolding lookup text_eq
found = refl

abbrev after : Option Text
after = rewritten id_key bcrypt (codes "root") (codes "toor") salt (key_of b't') users

rehash_password-login_example :
    (rehash_password id_key bcrypt written (some salt) (some file) (codes "root") (codes "toor")
      ≡ done (after, none))
    × (load_and_check_with_rehash id_key bcrypt after (codes "root") (codes "wrong")
        ≡ done (ok (text_eq (key_of b'w') (key_of b't'), false)))
    × (load_and_check_with_rehash id_key bcrypt after (codes "guest") (codes "x")
        ≡ load_and_check_with_rehash id_key bcrypt (some file) (codes "guest") (codes "x"))
unfolding are_bytes text_eq
rehash_password-login_example =
    rehash_password-login id_key bcrypt (codes "root") (codes "toor") salt (key_of b't') file
      (codes "$2a$10$toor") (codes "guest") (codes "wrong") (key_of b'w') (codes "x") users loads
      found refl (are_bytes-AreBytes salt refl) (are_bytes-AreBytes (key_of b't') refl) refl refl
      refl
