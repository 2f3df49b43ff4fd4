-- ===== src/Secrets/Tests.antt =====
-- A file that is encrypted and restored, and a secret. The cipher of these runs hides nothing.
use caspaste.Prelude.{
  ◌≡◌, refl, Option, none, some, [], ◌∷◌, ◌++◌, Text, text_eq, codes, Map, if◌then◌else◌, arith,
}
use caspaste.Prelude.Table.{select_row}
use caspaste.Secrets.Encryption.{
  ok, encrypt_file, decrypt_file, decrypt_data, err, invalid_backup_file,
}
use caspaste.Secrets.Sealed.{decrypt_file-encrypt_file}
use caspaste.Secrets.Stored.{Secret, has_name, load_or_generate_secret}
use caspaste.Secrets.Stored
use caspaste.Secrets.Restarts.{load_or_generate_secret-again}

abbrev id_key : Text → Text → Text
id_key password salt = password

abbrev seal : Text → Text → Text → Text
seal key iv plaintext = b'k' ∷ plaintext

abbrev open_sealed : Text → Text → Text → Option Text
open_sealed key iv [] = none
open_sealed key iv (c ∷ t) = some t

abbrev base : Text → Text
base path = codes "a.enc"

abbrev join : Text → Text → Text
join dir name = dir ++ b'/' ∷ name

abbrev salt : Text
salt = codes "0123456789abcdef"

abbrev iv : Text
iv = codes "0123456789ab"

abbrev files : Map Text
files path = if text_eq path (codes "/d/a") then some (codes "text") else none

decrypt_file-encrypt_file_example :
    let files' =
      (encrypt_file id_key seal open_sealed none
        (some salt)
        (some iv)
        files
        (codes "/d/a")
        (codes "p")).0 in
    let (restored, r) =
      decrypt_file id_key seal open_sealed base join none files'
        (codes "/d/a.enc")
        (codes "p")
        (codes "/r") in
    (r ≡ ok (codes "/r/a")) × (restored (codes "/r/a") ≡ some (codes "text"))
unfolding text_eq
decrypt_file-encrypt_file_example =
    decrypt_file-encrypt_file id_key seal open_sealed base join (λ key iv plaintext. refl) files
      (codes "/d/a") (codes "a") (codes "/r") salt iv (codes "text") (codes "p") refl refl refl refl
      (omega arith)

decrypt_data_short : decrypt_data id_key seal open_sealed salt (codes "p") ≡ err invalid_backup_file
unfolding decrypt_data
decrypt_data_short = refl

load_or_generate_secret-again_example :
    let (made, r) = load_or_generate_secret none none (some (7 ∷ 255 ∷ [])) [] (codes "key") in
    let (both, r') = load_or_generate_secret none (some 3) (some (1 ∷ [])) made (codes "csrf") in
    (r ≡ Stored.ok (7 ∷ 255 ∷ []))
    × ((load_or_generate_secret none none none made (codes "key")).1 ≡ Stored.ok (7 ∷ 255 ∷ []))
    × ((load_or_generate_secret none none none both (codes "key")).1 ≡ Stored.ok (7 ∷ 255 ∷ []))
    × (select_row (has_name (codes "csrf")) made ≡ select_row (has_name (codes "csrf")) [])
unfolding select_row text_eq
load_or_generate_secret-again_example =
    load_or_generate_secret-again (7 ∷ 255 ∷ []) none (some 3) none (some (1 ∷ [])) [] (codes "key")
      (codes "csrf") (omega arith, (omega arith, tt)) refl refl
