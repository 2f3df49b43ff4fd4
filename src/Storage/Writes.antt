-- ===== src/Storage/Writes.antt =====
-- The commands that add, edit and remove pastes do what the contract says.
use caspaste.Prelude.{
  ℕ, ◌==◌, ◌≡◌, refl, sym, ap, ◌∙◌, ◌++◌, Bool, true, false, inl, inr, Bool-cases, Option, none,
  some, List, [], ◌∷◌, if◌then◌else◌, Text, text_eq, text_eq_iff, arith,
}
use caspaste.Prelude.Table.{Outcome, select_row, update, affected}
use caspaste.Prelude.Table.Laws.{
  affected-zero_iff, update_none, delete_none, select_row-none, select_row-eq_some,
  select_row-update, affected-update,
}
use caspaste.Storage.Rows.{Paste, has_id}
use caspaste.Storage.Expiry.{UniqueIds}
use caspaste.Storage.Mirror.{insert-UniqueIds, delete-UniqueIds}
use caspaste.Storage.Lookup.{select_row-insert_row, select_row-delete_id}
use caspaste.Storage.Spec.{
  Pastes, Answer, adding, changing, view, with, without, fresh, drawn, replaced,
}
use caspaste.Storage.{
  Result, ok, err, driver, unique_violation, Db, added, row_of, set_columns, insert_row, add_row,
  add_with_id, paste_update, paste_delete,
}

-- A result of the code and a result of the contract.
pub record Agrees (r : Db × Answer) (s : Pastes × Answer) : Type 0 where
  pub pastes : (j : Text) → view r.0 j ≡ s.0 j
  pub answer : r.1 ≡ s.1
  pub unique : UniqueIds r.0.pool

pub unchanged : (db : Db) (a : Answer) → UniqueIds db.pool → Agrees (db, a) (view db, a)
unchanged db a u = record { pastes = λ j. refl; answer = refl; unique = u }

-- A test of the affected rows, by what is found.
pub miss :
    (test : Paste → Bool) (rows : List Paste)
    → select_row test rows ≡ none
    → (affected test rows == 0) ≡ true
miss test rows h = rw (select_row-none test rows h) refl

pub hit :
    (test : Paste → Bool) (rows : List Paste) (q : Paste)
    → select_row test rows ≡ some q
    → (affected test rows == 0) ≡ false
hit test rows q h = ground (arith, h, affected-zero_iff test rows)

-- An insertion, by what is found under its id.
insert_taken :
    (row q : Paste) (rows : List Paste)
    → select_row (has_id row.id) rows ≡ some q
    → insert_row none row rows ≡ err unique_violation
unfolding insert_row
insert_taken row q rows h = ground (arith, h, affected-zero_iff (has_id row.id) rows)

insert_free :
    (row : Paste) (rows : List Paste)
    → select_row (has_id row.id) rows ≡ none
    → insert_row none row rows ≡ ok (rows ++ row ∷ [])
unfolding insert_row
insert_free row rows h = ground (arith, select_row-none (has_id row.id) rows h)

insert-Agrees :
    (row : Paste) (o₂ : Outcome) (db : Db) (o : Option Paste)
    → UniqueIds db.pool
    → view db row.id ≡ o
    → Agrees
        (let r = add_row (insert_row none row db.pool) o₂ db row in (r.0, adding r.1))
        (fresh o row (view db))
unfolding add_row
insert-Agrees row o₂ db (some q) u h =
    rw (insert_taken row q db.pool h) (unchanged db (adding (added row (some unique_violation))) u)
insert-Agrees row o₂ db none u h = rw (insert_free row db.pool h) (record {
  pastes =
      λ j. select_row-insert_row row db.pool (db.pool ++ row ∷ []) j (insert_free row db.pool h);
  answer = refl;
  unique = insert-UniqueIds row db.pool (db.pool ++ row ∷ []) u (insert_free row db.pool h);
})

pub add-Agrees :
    (id : Result Text) (now : ℕ) (o₁ o₂ : Outcome) (p : Paste) (db : Db)
    → UniqueIds db.pool
    → Agrees
        (let r = add_with_id id now o₁ o₂ db p in (r.0, adding r.1))
        (drawn id now o₁ p (view db))
unfolding add_with_id add_row insert_row
add-Agrees (err e) now o₁ o₂ p db u =
    unchanged db (adding (added (record p { id = [] }) (some e))) u
add-Agrees (ok id) now (some e) o₂ p db u =
    unchanged db (adding (added (row_of id now p) (some (driver e)))) u
add-Agrees (ok id) now none o₂ p db u = insert-Agrees (row_of id now p) o₂ db (view db id) u refl

-- What an update of the columns makes of a row that is found.
abbrev columns_set : Paste → Option Paste → Option Paste
columns_set p none = none
columns_set p (some r) = some (if text_eq r.id p.id then set_columns p r else r)

pub found_id :
    (id : Text) (rows : List Paste) (q : Paste) → select_row (has_id id) rows ≡ some q → q.id ≡ id
found_id id rows q h = (text_eq_iff q.id id).0 (select_row-eq_some (has_id id) rows h)

columns_set_other :
    (p : Paste) (rows : List Paste) (j : Text) (o : Option Paste)
    → text_eq p.id j ≡ false
    → select_row (has_id j) rows ≡ o
    → columns_set p o ≡ o
columns_set_other p rows j none f h = refl
columns_set_other p rows j (some r) f h =
    ground (arith, found_id j rows r h, text_eq_iff r.id p.id, text_eq_iff p.id j, f)

updated :
    (p : Paste) (rows : List Paste) (j : Text)
    → select_row (has_id j) (update (set_columns p) (has_id p.id) rows)
      ≡ columns_set p (select_row (has_id j) rows)
updated p rows j =
    select_row-update (has_id j) (has_id p.id) (set_columns p) rows (λ r. refl)
    ∙ same (select_row (has_id j) rows)
  where
    same :
        (o : Option Paste)
        → (elim o [ none ↦ none | some r ↦ some (if has_id p.id r then set_columns p r else r) ])
          ≡ columns_set p o
    same none = refl
    same (some r) = refl

module _ (p q : Paste) (rows : List Paste) (h : select_row (has_id p.id) rows ≡ some q) where
  same_id : q.id ≡ p.id
  same_id = found_id p.id rows q h

  edited_hit :
      (j : Text)
      → text_eq q.id j ≡ true
      → columns_set p (select_row (has_id j) rows) ≡ some (set_columns p q)
  edited_hit j t =
      let here : j ≡ p.id = sym ((text_eq_iff q.id j).0 t) ∙ same_id in
      ap (λ k. columns_set p (select_row (has_id k) rows)) here
      ∙ ap (columns_set p) h
      ∙ ap (λ b. some (if b then set_columns p q else q)) ((text_eq_iff q.id p.id).1 same_id)

  edited :
      (j : Text)
      → select_row (has_id j) (update (set_columns p) (has_id p.id) rows)
        ≡ (if text_eq q.id j then some (set_columns p q) else select_row (has_id j) rows)
  edited j = updated p rows j ∙ elim (Bool-cases (text_eq q.id j)) [
    | inl t ↦
        edited_hit j t
        ∙ ap (λ b. if b then some (set_columns p q) else select_row (has_id j) rows) (sym t)
    | inr f ↦
        columns_set_other p rows j (select_row (has_id j) rows)
          (ap (λ k. text_eq k j) (sym same_id) ∙ f) refl
        ∙ ap (λ b. if b then some (set_columns p q) else select_row (has_id j) rows) (sym f)
  ]

update-UniqueIds :
    (p : Paste) (rows : List Paste)
    → UniqueIds rows
    → UniqueIds (update (set_columns p) (has_id p.id) rows)
update-UniqueIds p rows u id =
    omega (arith, u id, affected-update (has_id id) (has_id p.id) (set_columns p) rows (λ r. refl))

pub edit-Agrees :
    (p : Paste) (o₂ : Outcome) (db : Db) (o : Option Paste)
    → UniqueIds db.pool
    → view db p.id ≡ o
    → Agrees
        (let r = paste_update none o₂ db p in (r.0, changing r.1))
        (replaced (λ q. with (set_columns p q)) o (view db))
unfolding paste_update
edit-Agrees p o₂ db none u h = rw (miss (has_id p.id) db.pool h) (record {
  pastes = λ j.
      ap (select_row (has_id j)) (
        update_none (set_columns p) (has_id p.id) db.pool
          (select_row-none (has_id p.id) db.pool h));
  answer = refl;
  unique = update-UniqueIds p db.pool u;
})
edit-Agrees p o₂ db (some q) u h =
    rw (hit (has_id p.id) db.pool q h) (record {
      pastes = edited p q db.pool h;
      answer = refl;
      unique = update-UniqueIds p db.pool u;
    })

pub remove-Agrees :
    (id : Text) (o₂ : Outcome) (db : Db) (o : Option Paste)
    → UniqueIds db.pool
    → view db id ≡ o
    → Agrees
        (let r = paste_delete none o₂ db id in (r.0, changing r.1))
        (replaced (λ q. without id) o (view db))
unfolding paste_delete
remove-Agrees id o₂ db none u h = rw (miss (has_id id) db.pool h) (record {
  pastes = λ j.
      ap (select_row (has_id j))
        (delete_none (has_id id) db.pool (select_row-none (has_id id) db.pool h));
  answer = refl;
  unique = delete-UniqueIds (has_id id) db.pool u;
})
remove-Agrees id o₂ db (some q) u h = rw (hit (has_id id) db.pool q h) (record {
  pastes = λ j. select_row-delete_id id j db.pool;
  answer = refl;
  unique = delete-UniqueIds (has_id id) db.pool u;
})
