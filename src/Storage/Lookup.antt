-- ===== src/Storage/Lookup.antt =====
-- What `PasteGet` finds after the other operations.
use caspaste.Prelude.{
  ℕ, ◌≡◌, refl, ap, ◌∙◌, Bool, true, false, inl, inr, Bool-cases, Option, none, some, List, [], ◌∷◌,
  if◌then◌else◌, Text, text_eq, text_eq_iff, text_eq_refl, arith,
}
use caspaste.Prelude.Table.{select_row, delete}
use caspaste.Prelude.Table.Laws.{
  affected-zero_iff, select_row-append-none, select_row-append_miss, select_row-delete-none,
  select_row-delete_spare, select_row-update,
}
use caspaste.Storage.Rows.{Paste, has_id, is_expired}
use caspaste.Prelude.Table.{Outcome}
use caspaste.Storage.{
  Result, ok, err, Db, get_row, paste_get, not_found_id, gen_token_crypto, insert_row, row_of,
  paste_add, paste_update, paste_delete, set_columns, add_row, add_with_id,
}

-- A lookup at `now` whose statements both run.
abbrev pub looks_up : ℕ → Option Paste → Result Paste
looks_up now none = err not_found_id
looks_up now (some p) = if is_expired now p then err not_found_id else ok p

paste_get-looks_up :
    (now : ℕ) (db : Db) (id : Text)
    → (paste_get now none none db id).1 ≡ looks_up now (select_row (has_id id) db.pool)
unfolding paste_get get_row
paste_get-looks_up now db id = ground arith

select_row-insert_hit :
    (row : Paste) (rows rows' : List Paste)
    → insert_row none row rows ≡ ok rows'
    → select_row (has_id row.id) rows' ≡ some row
unfolding insert_row select_row
select_row-insert_hit row rows rows' h = ground (
  arith,
  affected-zero_iff (has_id row.id) rows,
  select_row-append-none (has_id row.id) rows (row ∷ []),
  text_eq_refl row.id,
)

select_row-insert_miss :
    (row : Paste) (rows rows' : List Paste) (j : Text)
    → insert_row none row rows ≡ ok rows'
    → text_eq row.id j ≡ false
    → select_row (has_id j) rows' ≡ select_row (has_id j) rows
unfolding insert_row
select_row-insert_miss row rows rows' j h m =
    ground (arith, select_row-append_miss (has_id j) rows row)

-- The new row is found under its id, the others under theirs.
pub select_row-insert_row :
    (row : Paste) (rows rows' : List Paste) (j : Text)
    → insert_row none row rows ≡ ok rows'
    → select_row (has_id j) rows'
      ≡ (if text_eq row.id j then some row else select_row (has_id j) rows)
select_row-insert_row row rows rows' j h = elim (Bool-cases (text_eq row.id j)) [
  | inl same ↦
      rw same (rw (← (text_eq_iff row.id j).0 same) (select_row-insert_hit row rows rows' h))
  | inr other ↦ rw other (select_row-insert_miss row rows rows' j h other)
]

add_row-pool :
    (row : Paste) (r : Result (List Paste)) (o₂ : Outcome) (db : Db)
    → (add_row r o₂ db row).1.error ≡ none
    → r ≡ ok (add_row r o₂ db row).0.pool
unfolding add_row
add_row-pool row (err e) o₂ db h = cc
add_row-pool row (ok rows) o₂ db h = refl

looks_up_if :
    (later : ℕ) (b : Bool) (p : Paste) (o : Option Paste)
    → looks_up later (if b then some p else o)
      ≡ (if b then looks_up later (some p) else looks_up later o)
looks_up_if later true p o = refl
looks_up_if later false p o = refl

get-stored :
    (now later : ℕ) (o₂ : Outcome) (db : Db) (p : Paste) (id j : Text)
    → (add_with_id (ok id) now none o₂ db p).1.error ≡ none
    → (paste_get later none none (add_with_id (ok id) now none o₂ db p).0 j).1 ≡ (
        if text_eq id j
        then looks_up later (some (row_of id now p))
        else (paste_get later none none db j).1)
unfolding add_with_id
get-stored now later o₂ db p id j e =
    let row : Paste = row_of id now p in
    let result : Result (List Paste) = insert_row none row db.pool in
    rw (paste_get-looks_up later db j) (
      paste_get-looks_up later (add_row result o₂ db row).0 j
      ∙ ap (looks_up later) (
          select_row-insert_row row db.pool (add_row result o₂ db row).0.pool j
            (add_row-pool row result o₂ db e))
      ∙ looks_up_if later (text_eq id j) row (select_row (has_id j) db.pool))

-- A paste that `PasteAdd` has stored without an error is found under the new id as it was given, but
-- with that id, the time of the call and a time of deletion that is not negative, until it expires;
-- what is found under any other id stays as it was.
pub paste_get-paste_add :
    (draws : List (Option ℕ)) (now later : ℕ) (o₂ : Outcome) (db : Db) (p : Paste) (id j : Text)
    → gen_token_crypto 8 draws ≡ ok id
    → (paste_add draws now none o₂ db p).1.error ≡ none
    → (paste_get later none none (paste_add draws now none o₂ db p).0 j).1 ≡ (
        if text_eq id j
        then looks_up later (some (row_of id now p))
        else (paste_get later none none db j).1)
unfolding paste_add
paste_get-paste_add draws now later o₂ db p id j g e =
    rw (g, add_with_id) (get-stored now later o₂ db p id j (rw (g, add_with_id) at e))

-- After a successful `PasteUpdate` the paste is found with its new columns, its id and its time of
-- creation as before, and no other paste has changed.
pub paste_get-paste_update :
    (later : ℕ) (o₂ : Outcome) (db : Db) (p : Paste) (j : Text)
    → (paste_update none o₂ db p).1 ≡ ok tt
    → (paste_get later none none (paste_update none o₂ db p).0 j).1
      ≡ (elim (select_row (has_id j) db.pool) [
        | none ↦ err not_found_id
        | some row ↦ looks_up later (some (if text_eq row.id p.id then set_columns p row else row))
      ])
unfolding paste_update
paste_get-paste_update later o₂ db p j h = ground (
  arith,
  paste_get-looks_up later (paste_update none o₂ db p).0 j,
  select_row-update (has_id j) (has_id p.id) (set_columns p) db.pool (λ r. refl),
)

pub select_row-delete_id :
    (id j : Text) (rows : List Paste)
    → select_row (has_id j) (delete (has_id id) rows)
      ≡ (if text_eq id j then none else select_row (has_id j) rows)
select_row-delete_id id j rows = elim (Bool-cases (text_eq id j)) [
  | inl same ↦ rw same (
      rw (← (text_eq_iff id j).0 same)
        (select_row-delete-none (has_id id) (has_id id) rows (λ r t. t)))
  | inr other ↦ rw other (
      select_row-delete_spare (has_id j) (has_id id) rows
        λ r t. ground (arith, text_eq_iff r.id j, text_eq_iff r.id id, text_eq_refl j))
]

-- After `PasteDelete` has run, well or not found, the id is not found, and every other lookup
-- answers as before.
pub paste_get-paste_delete :
    (later : ℕ) (o₂ : Outcome) (db : Db) (id j : Text)
    → (paste_get later none none (paste_delete none o₂ db id).0 j).1
      ≡ (if text_eq id j then err not_found_id else (paste_get later none none db j).1)
unfolding paste_delete
paste_get-paste_delete later o₂ db id j = ground (
  arith,
  paste_get-looks_up later (paste_delete none o₂ db id).0 j,
  paste_get-looks_up later db j,
  select_row-delete_id id j db.pool,
)
