-- ===== src/Storage/Tests.antt =====
-- Runs of the storage model, and its theorems at a small table.
use caspaste.Prelude.{
  ℕ, ◌≡◌, refl, true, false, inr, Option, none, some, List, [], ◌∷◌, map, Text, codes, text_eq,
  text_eq_iff, length, arith,
}
use caspaste.Prelude.Int.{ℤ, pos, negsuc}
use caspaste.Prelude.Table.{select, select_row, affected}
use caspaste.Prelude.Table.Newest.{newest_first, insert_newest}
use caspaste.Storage.Rows.{Paste}
use caspaste.Storage.Ids.{AllAlnum, gen_token_crypto_lem}
use caspaste.Storage.Mirror.{IsConsistent, step, expires, step-IsConsistent}
use caspaste.Storage.OneUse.{winners, winners_lem}
use caspaste.Storage.Expiry.{paste_get-eq_ok, paste_get-paste_delete_expired, paste_get_expired}
use caspaste.Storage.Spec.{Command, add, read, burn, expire, view}
use caspaste.Storage.Refinement.{answers, expected, answers-expected}
use caspaste.Storage.Lookup.{paste_get-paste_add, paste_get-paste_update, paste_get-paste_delete}
use caspaste.Storage.Listing.{IsPage, with_one_use, paste_list-IsPage, paste_list-with_one_use}
use caspaste.Storage.{
  ok, err, not_found_id, Db, gen_token_crypto, insert_row, paste_add, paste_update, paste_delete,
  paste_get, paste_delete_expired, paste_list, item_of,
}

abbrev note : Text → ℕ → ℤ → Paste
note id created deleted_at = record {
  id = id;
  title = codes "t";
  body = codes "b";
  create_time = created;
  delete_time = deleted_at;
  one_use = false;
  syntax = codes "plaintext";
  author = [];
  author_email = [];
  author_url = [];
  is_file = false;
  file_name = [];
  mime_type = [];
  is_editable = false;
  is_private = false;
  is_url = false;
  original_url = [];
}

abbrev kept : Paste
kept = note (codes "kept") 10 (pos 0)

abbrev burning : Paste
burning = record (note (codes "burn") 20 (pos 0)) { one_use = true }

abbrev old : Paste
old = note (codes "old") 5 (pos 30)

abbrev db : Db
db = record { pool = kept ∷ burning ∷ old ∷ []; backup_pool = some (kept ∷ burning ∷ old ∷ []) }

abbrev draws : List (Option ℕ)
draws = some 0 ∷ some 1 ∷ some 2 ∷ some 3 ∷ some 4 ∷ some 5 ∷ some 6 ∷ some 61 ∷ []

abbrev new_id : Text
new_id = codes "abcdefg9"

gen_token_crypto-draws : gen_token_crypto 8 draws ≡ ok new_id
unfolding gen_token_crypto
gen_token_crypto-draws = refl

paste_list-now :
    paste_list 100 none db (pos 0) (negsuc 4) ≡ ok (item_of burning ∷ item_of kept ∷ [])
unfolding paste_list select newest_first insert_newest
paste_list-now = refl

gen_token_crypto_lem_run : (length new_id ≡ 8) × AllAlnum new_id
gen_token_crypto_lem_run = gen_token_crypto_lem 8 draws new_id (omega arith) gen_token_crypto-draws

winners_lem_run : winners db (codes "burn") ((some 7, none) ∷ (none, none) ∷ (none, none) ∷ []) ≡ 1
unfolding affected text_eq
winners_lem_run = winners_lem ((some 7, none) ∷ (none, none) ∷ (none, none) ∷ []) db (codes "burn")

paste_get-paste_add_run :
    (paste_get 60 none none (paste_add draws 50 none none db (note [] 0 (negsuc 0))).0 new_id).1
    ≡ ok (note new_id 50 (pos 0))
unfolding paste_add gen_token_crypto insert_row affected text_eq
paste_get-paste_add_run =
    paste_get-paste_add draws 50 60 none db (note [] 0 (negsuc 0)) new_id new_id
      gen_token_crypto-draws refl

paste_get-paste_update_run :
    (paste_get 60 none none
      (paste_update none none db (note (codes "kept") 0 (pos 90))).0
      (codes "kept")).1
    ≡ ok (note (codes "kept") 10 (pos 90))
unfolding paste_update affected select_row text_eq
paste_get-paste_update_run =
    paste_get-paste_update 60 none db (note (codes "kept") 0 (pos 90)) (codes "kept") refl

paste_get-paste_delete_run :
    (paste_get 60 none none (paste_delete none none db (codes "kept")).0 (codes "kept")).1
    ≡ err not_found_id
unfolding text_eq
paste_get-paste_delete_run = paste_get-paste_delete 60 none db (codes "kept") (codes "kept")

paste_get-eq_ok_run : (paste_get 60 none none db (codes "kept")).0 ≡ db
unfolding paste_get select_row text_eq
paste_get-eq_ok_run = (paste_get-eq_ok 60 none none db (codes "kept") kept refl).3

paste_get_expired_run : (paste_get 60 none none db (codes "old")).0.backup_pool ≡ db.backup_pool
unfolding select_row text_eq
paste_get_expired_run = (paste_get_expired 60 db (codes "old") old refl refl).2

db-IsConsistent : IsConsistent db
unfolding affected
db-IsConsistent = record {
  unique = λ id. ground (
    arith,
    text_eq_iff (codes "kept") id,
    text_eq_iff (codes "burn") id,
    text_eq_iff (codes "old") id,
  );
  mirrored = inr refl;
}

paste_get-paste_delete_expired_run :
    (paste_get 60 none none (paste_delete_expired 60 61 none none db).0 (codes "kept")).1
    ≡ (paste_get 60 none none db (codes "kept")).1
paste_get-paste_delete_expired_run =
    paste_get-paste_delete_expired 60 61 none db (codes "kept") db-IsConsistent.unique

step-IsConsistent_example : IsConsistent (step db (expires 60 61))
step-IsConsistent_example =
    step-IsConsistent db (expires 60 61) (refl, (refl, (refl, tt))) db-IsConsistent

paste_list-IsPage_run : IsPage 100 db.pool (pos 0) (negsuc 4) (item_of burning ∷ item_of kept ∷ [])
paste_list-IsPage_run =
    paste_list-IsPage 100 none db (pos 0) (negsuc 4) (item_of burning ∷ item_of kept ∷ [])
      paste_list-now

paste_list-with_one_use_run :
    paste_list 100 none (record db { pool = map (with_one_use true) db.pool }) (pos 0) (pos 0)
    ≡ paste_list 100 none db (pos 0) (pos 0)
paste_list-with_one_use_run = paste_list-with_one_use true 100 none db (pos 0) (pos 0)

-- A stored paste is read, a one-use paste is consumed once, the driver refuses one statement, and an
-- expired paste is gone.
abbrev session : List (Command × Option ℕ × Option ℕ)
session =
    (add draws 50 (note [] 0 (pos 70)), none, some 9)
    ∷ (read 60 new_id, none, none)
    ∷ (read 60 (codes "old"), some 7, none)
    ∷ (burn (codes "burn"), none, none)
    ∷ (burn (codes "burn"), none, none)
    ∷ (expire 80 80, none, none)
    ∷ (read 60 new_id, none, none)
    ∷ []

answers-expected_example : answers session db ≡ expected session (view db)
answers-expected_example = answers-expected session db db-IsConsistent.unique
