-- ===== src/Storage.antt =====
-- src/storage/paste.go and share.go: the table of pastes, its SQLite copy, and the operations on
-- them. An operation takes what each of its statements came to: `none` if the database ran it, and
-- `some e` if the driver gave the error `e`, in which case the statement did nothing.
pub mod Rows
mod Mirror
pub mod Adding
pub mod Lookup
mod OneUse
pub mod Expiry
pub mod Listing
mod Ids
mod Spec
mod Writes
mod Refinement
mod Tests
use caspaste.Prelude.{
  ℕ, zero, suc, ◌+◌, ◌%◌, Bool, true, false, ◌&&◌, ◌||◌, not, Option, none, some, List, [], ◌∷◌,
  ◌++◌, ltb, leb, ◌==◌, if◌then◌else◌, Text, text_eq, codes, take, drop,
}
use caspaste.Prelude.Int.{ℤ, pos, negsuc, ltz}
use caspaste.Prelude.Table.Newest.{newest_first}
use caspaste.Prelude.Table.{Outcome, select, select_row, delete, update, affected}
use Rows.{Paste, has_id, is_expired, is_listed}

pub data Error : Type 0 where
  not_found_id no_randomness unique_violation : Error
  driver : ℕ → Error

pub data Result {ℓ} (A : Type ℓ) : Type ℓ where
  ok : A → Result A
  err : Error → Result A

-- The two pools of a `DB`: the second is nil where no backup is configured.
pub record Db : Type 0 where
  pub pool : List Paste
  pub backup_pool : Option (List Paste)

-- `INSERT INTO pastes`: the primary key is unique.
unfoldable pub insert_row : Outcome → Paste → List Paste → Result (List Paste)
insert_row (some e) p rows = err (driver e)
insert_row none p rows =
    if affected (has_id p.id) rows == 0 then ok (rows ++ p ∷ []) else err unique_violation

-- `INSERT OR REPLACE INTO pastes`.
abbrev pub replace_row : Paste → List Paste → List Paste
replace_row p rows = delete (has_id p.id) rows ++ p ∷ []

-- A statement on the backup, if there is one. Its errors are logged and dropped.
abbrev pub on_backup :
    Outcome → (List Paste → List Paste) → Option (List Paste) → Option (List Paste)
on_backup o change none = none
on_backup (some e) change (some rows) = some rows
on_backup none change (some rows) = some (change rows)

abbrev chars : Text
chars = codes "abcdefghijklmnopqrstuvwxyzABCDEFGHIJKLMNOPQRSTUVWXYZ0123456789"

abbrev char_at : ℕ → Text → ℕ
char_at i [] = 0
char_at zero (c ∷ cs) = c
char_at (suc i) (c ∷ cs) = char_at i cs

gen_loop : ℕ → List (Option ℕ) → Text → Result Text
gen_loop zero draws token = ok token
gen_loop (suc n) [] token = err no_randomness
gen_loop (suc n) (none ∷ draws) token = err no_randomness
gen_loop (suc n) (some i ∷ draws) token = gen_loop n draws (token ++ char_at i chars ∷ [])

-- `genTokenCrypto`. The draws are what `rand.Int` gives, numbers below 62; `none` is its error.
unfoldable pub gen_token_crypto : ℕ → List (Option ℕ) → Result Text
unfolding gen_loop
gen_token_crypto token_len draws = gen_loop token_len draws []

-- What `PasteAdd` returns.
pub record Added : Type 0 where
  pub id : Text
  pub create_time : ℕ
  pub delete_time : ℤ
  pub error : Option Error

abbrev pub added : Paste → Option Error → Added
added p e = record {
  id = p.id;
  create_time = p.create_time;
  delete_time = p.delete_time;
  error = e;
}

-- The row that `PasteAdd` writes.
abbrev pub row_of : Text → ℕ → Paste → Paste
row_of id now p = record p {
  id = id;
  create_time = now;
  delete_time = if ltz p.delete_time (pos 0) then pos 0 else p.delete_time;
}

unfoldable pub add_row : Result (List Paste) → Outcome → Db → Paste → Db × Added
add_row (err e) o₂ db p = (db, added p (some e))
add_row (ok rows) o₂ db p = (
  record { pool = rows; backup_pool = on_backup o₂ (replace_row p) db.backup_pool },
  added p none,
)

unfoldable pub add_with_id : Result Text → ℕ → Outcome → Outcome → Db → Paste → Db × Added
unfolding add_row
add_with_id (err e) now o₁ o₂ db p = (db, added (record p { id = [] }) (some e))
add_with_id (ok id) now o₁ o₂ db p =
    let row = row_of id now p in add_row (insert_row o₁ row db.pool) o₂ db row

unfoldable pub paste_add : List (Option ℕ) → ℕ → Outcome → Outcome → Db → Paste → Db × Added
unfolding add_with_id
paste_add draws now o₁ o₂ db p = add_with_id (gen_token_crypto 8 draws) now o₁ o₂ db p

-- `SET …`: all columns but the id and the time of creation.
abbrev pub set_columns : Paste → Paste → Paste
set_columns p row = record p { id = row.id; create_time = row.create_time }

unfoldable pub paste_update : Outcome → Outcome → Db → Paste → Db × Result (Unit {0})
paste_update (some e) o₂ db p = (db, err (driver e))
paste_update none o₂ db p =
    let change = update (set_columns p) (has_id p.id) in
    let db' = record db { pool = change db.pool } in
    if affected (has_id p.id) db.pool == 0
    then (db', err not_found_id)
    else (record db' { backup_pool = on_backup o₂ change db.backup_pool }, ok tt)

unfoldable pub paste_delete : Outcome → Outcome → Db → Text → Db × Result (Unit {0})
paste_delete (some e) o₂ db id = (db, err (driver e))
paste_delete none o₂ db id =
    let db' = record db { pool = delete (has_id id) db.pool } in
    if affected (has_id id) db.pool == 0
    then (db', err not_found_id)
    else (record db' { backup_pool = on_backup o₂ (delete (has_id id)) db.backup_pool }, ok tt)

abbrev pub has_id_one_use : Text → Paste → Bool
has_id_one_use id p = has_id id p && p.one_use

unfoldable pub paste_delete_if_one_use : Outcome → Outcome → Db → Text → Db × Result Bool
paste_delete_if_one_use (some e) o₂ db id = (db, err (driver e))
paste_delete_if_one_use none o₂ db id =
    let db' = record db { pool = delete (has_id_one_use id) db.pool } in
    if ltb 0 (affected (has_id_one_use id) db.pool)
    then (record db' { backup_pool = on_backup o₂ (delete (has_id id)) db.backup_pool }, ok true)
    else (db', ok false)

unfoldable pub get_row : Option Paste → ℕ → Outcome → Db → Db × Result Paste
get_row none now o₂ db = (db, err not_found_id)
get_row (some p) now o₂ db =
    if is_expired now p
    then (elim o₂ [
      | some e ↦ (db, err (driver e))
      | none ↦ (record db { pool = delete (has_id p.id) db.pool }, err not_found_id)
    ])
    else (db, ok p)

-- `o₂` is for the deletion of an expired paste.
unfoldable pub paste_get : ℕ → Outcome → Outcome → Db → Text → Db × Result Paste
unfolding get_row
paste_get now (some e) o₂ db id = (db, err (driver e))
paste_get now none o₂ db id = get_row (select_row (has_id id) db.pool) now o₂ db

-- The backup's statement reads the clock again.
unfoldable pub paste_delete_expired : ℕ → ℕ → Outcome → Outcome → Db → Db × Result ℕ
paste_delete_expired now later (some e) o₂ db = (db, err (driver e))
paste_delete_expired now later none o₂ db = (
  record {
    pool = delete (is_expired now) db.pool;
    backup_pool = on_backup o₂ (delete (is_expired later)) db.backup_pool;
  },
  ok (affected (is_expired now) db.pool),
)

pub record PasteListItem : Type 0 where
  pub id : Text
  pub title : Text
  pub syntax : Text
  pub create_time : ℕ
  pub delete_time : ℤ

abbrev pub item_of : Paste → PasteListItem
item_of p = record {
  id = p.id;
  title = p.title;
  syntax = p.syntax;
  create_time = p.create_time;
  delete_time = p.delete_time;
}

abbrev pub created : Paste → ℕ
created p = p.create_time

abbrev pub page_limit : ℤ → ℕ
page_limit (negsuc n) = 50
page_limit (pos n) = if n == 0 || ltb 100 n then 50 else n

abbrev pub page_offset : ℤ → ℕ
page_offset (negsuc n) = 0
page_offset (pos n) = n

abbrev pub items : List Paste → List PasteListItem
items [] = []
items (p ∷ ps) = item_of p ∷ items ps

unfoldable pub paste_list : ℕ → Outcome → Db → ℤ → ℤ → Result (List PasteListItem)
paste_list now (some e) db limit offset = err (driver e)
paste_list now none db limit offset = ok (
    items (
      take (page_limit limit)
        (drop (page_offset offset) (newest_first created (select (is_listed now) db.pool)))))
