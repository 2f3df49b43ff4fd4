-- ===== src/Storage/Adding.antt =====
-- How a call of `PasteAdd` ends.
use caspaste.Prelude.{ℕ, ◌≡◌, refl, sym, ap, Option, none, some, List, Text}
use caspaste.Prelude.Table.{Outcome}
use caspaste.Storage.Rows.{Paste}
use caspaste.Storage.{
  Error, Result, ok, err, Db, gen_token_crypto, insert_row, row_of, paste_add, add_row, add_with_id,
}

-- An error leaves the database as it was.
pub paste_add_error :
    (draws : List (Option ℕ)) (now : ℕ) (o₁ o₂ : Outcome) (db : Db) (p : Paste) (e : Error)
    → (paste_add draws now o₁ o₂ db p).1.error ≡ some e
    → (paste_add draws now o₁ o₂ db p).0 ≡ db
unfolding paste_add add_row
paste_add_error draws now o₁ o₂ db p e = with_id (gen_token_crypto 8 draws)
  where
    inserted :
        (row : Paste) (r : Result (List Paste))
        → (add_row r o₂ db row).1.error ≡ some e
        → (add_row r o₂ db row).0 ≡ db
    inserted row (err x) h = refl
    inserted row (ok rows) h = cc

    with_id :
        (id : Result Text)
        → (add_with_id id now o₁ o₂ db p).1.error ≡ some e
        → (add_with_id id now o₁ o₂ db p).0 ≡ db
    with_id (err x) h = refl
    with_id (ok id) h = inserted (row_of id now p) (insert_row o₁ (row_of id now p) db.pool) h

-- Without an error an id was drawn, and it is the one that is returned; the primary database ran the
-- insertion.
pub paste_add_done :
    (draws : List (Option ℕ)) (now : ℕ) (o₁ o₂ : Outcome) (db : Db) (p : Paste)
    → (paste_add draws now o₁ o₂ db p).1.error ≡ none
    → (gen_token_crypto 8 draws ≡ ok (paste_add draws now o₁ o₂ db p).1.id) × (o₁ ≡ none)
unfolding paste_add add_row insert_row
paste_add_done draws now o₁ o₂ db p h = with_id (gen_token_crypto 8 draws) o₁ h
  where
    returned : (row : Paste) (r : Result (List Paste)) → (add_row r o₂ db row).1.id ≡ row.id
    returned row (err x) = refl
    returned row (ok rows) = refl

    with_id :
        (id : Result Text) (o : Outcome)
        → (add_with_id id now o o₂ db p).1.error ≡ none
        → (id ≡ ok (add_with_id id now o o₂ db p).1.id) × (o ≡ none)
    with_id (err x) o h = cc
    with_id (ok id) (some e) h = cc
    with_id (ok id) none h =
        (ap ok (sym (returned (row_of id now p) (insert_row none (row_of id now p) db.pool))), refl)
