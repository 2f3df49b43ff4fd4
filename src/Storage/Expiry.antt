-- ===== src/Storage/Expiry.antt =====
-- Pastes past their time of deletion.
use caspaste.Prelude.{
  ℕ, ◌≤◌, ◌≡◌, refl, true, false, Option, none, some, List, [], ◌∷◌, if◌then◌else◌, Text,
  text_eq_iff, arith,
}
use caspaste.Prelude.Table.{affected, select_row, delete}
use caspaste.Prelude.Table.Laws.{select_row-delete-none, select_row-eq_some, affected-zero_iff}
use caspaste.Storage.Rows.{Paste, has_id, is_expired}
use caspaste.Prelude.Table.{Outcome}
use caspaste.Storage.{ok, err, Db, get_row, paste_get, paste_delete_expired, not_found_id}

found :
    (row : Option Paste) (now : ℕ) (o₂ : Outcome) (db : Db) (p : Paste)
    → (get_row row now o₂ db).1 ≡ ok p
    → (row ≡ some p) × (is_expired now p ≡ false) × ((get_row row now o₂ db).0 ≡ db)
unfolding get_row
found none now o₂ db p h = cc
found (some q) now (some e) db p h = ground arith
found (some q) now none db p h = ground arith

-- What `PasteGet` returns has the id that was asked for and is not past its time, whatever the
-- outcome of the statements; and it is a row of the table.
pub paste_get-eq_ok :
    (now : ℕ) (o₁ o₂ : Outcome) (db : Db) (id : Text) (p : Paste)
    → (paste_get now o₁ o₂ db id).1 ≡ ok p
    → (p.id ≡ id)
      × (is_expired now p ≡ false)
      × (select_row (has_id id) db.pool ≡ some p)
      × ((paste_get now o₁ o₂ db id).0 ≡ db)
unfolding paste_get
paste_get-eq_ok now (some e) o₂ db id p h = cc
paste_get-eq_ok now none o₂ db id p h = ground (
  arith,
  found (select_row (has_id id) db.pool) now o₂ db p,
  select_row-eq_some (has_id id) db.pool {r = p},
  text_eq_iff p.id id,
)

abbrev pub UniqueIds : List Paste → Type 0
UniqueIds rows = (id : Text) → affected (has_id id) rows ≤ 1

select_row-delete_expired :
    (now : ℕ) (rows : List Paste) (id : Text)
    → affected (has_id id) rows ≤ 1
    → select_row (has_id id) (delete (is_expired now) rows) ≡ (elim (select_row (has_id id) rows) [
      | none ↦ none
      | some p ↦ (if is_expired now p then none else some p)
    ])
unfolding select_row delete affected
select_row-delete_expired now [] id u = refl
select_row-delete_expired now (r ∷ rs) id u =
    ground (arith, select_row-delete_expired now rs id, affected-zero_iff (has_id id) rs)

-- The batch removal of expired pastes is invisible: at the time for which it runs, every lookup
-- gives the same answer before and after it. No two rows have one id.
pub paste_get-paste_delete_expired :
    (now later : ℕ) (o₂ : Outcome) (db : Db) (id : Text)
    → UniqueIds db.pool
    → (paste_get now none none (paste_delete_expired now later none o₂ db).0 id).1
      ≡ (paste_get now none none db id).1
unfolding paste_get get_row paste_delete_expired
paste_get-paste_delete_expired now later o₂ db id u =
    ground (arith, select_row-delete_expired now db.pool id (u id))

-- An expired paste that is looked up is deleted and reported missing, but the backup keeps its row.
pub paste_get_expired :
    (now : ℕ) (db : Db) (id : Text) (p : Paste)
    → select_row (has_id id) db.pool ≡ some p
    → is_expired now p ≡ true
    → ((paste_get now none none db id).1 ≡ err not_found_id)
      × (select_row (has_id id) (paste_get now none none db id).0.pool ≡ none)
      × ((paste_get now none none db id).0.backup_pool ≡ db.backup_pool)
unfolding paste_get get_row
paste_get_expired now db id p s x =
    let same : p.id ≡ id = (text_eq_iff p.id id).0 (select_row-eq_some (has_id id) db.pool s) in
    rw (s, get_row)
      (rw x
        (refl, select_row-delete-none (has_id id) (has_id p.id) db.pool (λ r t. rw same t), refl))
