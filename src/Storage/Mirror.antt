-- ===== src/Storage/Mirror.antt =====
-- The table and its copy: distinct ids, and a backup that holds the same rows.
use mathlib.Core.Path.{subst}
use caspaste.Prelude.{
  ℕ, ◌≤◌, ◌<◌, ◌≡◌, refl, sym, ◌&&◌, false, All, Bool, ◌⊎◌, inl, inr, Bool-cases, Option, none,
  some, List, [], ◌∷◌, Text, text_eq, text_eq_iff, arith,
}
use caspaste.Prelude.Table.{affected, delete, select_row}
use caspaste.Prelude.Table.Laws.{
  delete_none, update_none, affected-append, affected-delete-le, affected-update,
}
use caspaste.Storage.Rows.{Paste, has_id, is_expired}
use caspaste.Storage.Expiry.{UniqueIds}
use caspaste.Storage.{
  Result, ok, err, Db, gen_token_crypto, insert_row, row_of, paste_add, paste_update, paste_delete,
  paste_delete_if_one_use, paste_delete_expired, paste_get, get_row, set_columns, add_row,
  add_with_id, has_id_one_use, replace_row,
}

-- The calls that write, and the look-up, which deletes an expired paste. `expires` has the two readings
-- of the clock.
pub data Call : Type 0 where
  adds : List (Option ℕ) → ℕ → Paste → Call
  updates : Paste → Call
  deletes : Text → Call
  burns : Text → Call
  expires : ℕ → ℕ → Call
  looks : ℕ → Text → Call

-- The database after a call whose statements all run.
unfoldable pub step : Db → Call → Db
unfolding paste_add paste_update paste_delete paste_delete_if_one_use paste_delete_expired paste_get
step db (adds draws now p) = (paste_add draws now none none db p).0
step db (updates p) = (paste_update none none db p).0
step db (deletes id) = (paste_delete none none db id).0
step db (burns id) = (paste_delete_if_one_use none none db id).0
step db (expires now later) = (paste_delete_expired now later none none db).0
step db (looks now id) = (paste_get now none none db id).0

-- No paste of the table expires between the two readings of the clock, and none is looked up that has
-- expired: such a one is deleted from the table only.
abbrev pub IsSteady : Db → Call → Type 0
IsSteady db (expires now later) = All (λ p. is_expired later p ≡ is_expired now p) db.pool
IsSteady db (looks now id) = All (λ p. (has_id id p && is_expired now p) ≡ false) db.pool
IsSteady db c = Unit {0}

pub record IsConsistent (db : Db) : Type 0 where
  pub unique : UniqueIds db.pool
  pub mirrored : (db.backup_pool ≡ none) ⊎ (db.backup_pool ≡ some db.pool)

affected-one_use-le :
    (id : Text) (rs : List Paste) → affected (has_id_one_use id) rs ≤ affected (has_id id) rs
unfolding affected
affected-one_use-le id [] = omega arith
affected-one_use-le id (r ∷ rs) = ground (arith, affected-one_use-le id rs)

-- Where the id is unique and its row is one-use, both conditions delete that one row.
delete_one_use :
    (id : Text) (rs : List Paste)
    → affected (has_id id) rs ≤ 1
    → 0 < affected (has_id_one_use id) rs
    → delete (has_id id) rs ≡ delete (has_id_one_use id) rs
unfolding delete affected
delete_one_use id [] u h = refl
delete_one_use id (r ∷ rs) u h = ground (
  arith,
  delete_one_use id rs,
  affected-one_use-le id rs,
  delete_none (has_id id) rs,
  delete_none (has_id_one_use id) rs,
)

pub insert-UniqueIds :
    (row : Paste) (rows rows' : List Paste)
    → UniqueIds rows
    → insert_row none row rows ≡ ok rows'
    → UniqueIds rows'
unfolding insert_row affected
insert-UniqueIds row rows rows' u h id = elim (Bool-cases (text_eq row.id id)) [
  | inl same ↦
      rw (← (text_eq_iff row.id id).0 same)
        (ground (arith, affected-append (has_id row.id) rows (row ∷ [])))
  | inr other ↦ ground (arith, u id, affected-append (has_id id) rows (row ∷ []))
]

insert-mirror :
    (row : Paste) (rows rows' : List Paste)
    → insert_row none row rows ≡ ok rows'
    → replace_row row rows ≡ rows'
unfolding insert_row
insert-mirror row rows rows' h = ground (arith, delete_none (has_id row.id) rows)

add_row-IsConsistent :
    (row : Paste) (r : Result (List Paste)) (db : Db)
    → insert_row none row db.pool ≡ r
    → IsConsistent db
    → IsConsistent (add_row r none db row).0
unfolding add_row
add_row-IsConsistent row (err e) db h v = v
add_row-IsConsistent row (ok rows) db h v = record {
  unique = insert-UniqueIds row db.pool rows v.unique h;
  mirrored = ground (arith, v.mirrored, insert-mirror row db.pool rows h);
}

add_with_id-IsConsistent :
    (id : Result Text) (now : ℕ) (db : Db) (p : Paste)
    → IsConsistent db
    → IsConsistent (add_with_id id now none none db p).0
unfolding add_with_id
add_with_id-IsConsistent (err e) now db p v = v
add_with_id-IsConsistent (ok id) now db p v = add_row-IsConsistent (row_of id now p) _ db refl v

pub delete-UniqueIds :
    (del : Paste → Bool) (rows : List Paste) → UniqueIds rows → UniqueIds (delete del rows)
delete-UniqueIds del rows u id = omega (arith, u id, affected-delete-le (has_id id) del rows)

paste_update-IsConsistent :
    (db : Db) (p : Paste) → IsConsistent db → IsConsistent (paste_update none none db p).0
unfolding paste_update
paste_update-IsConsistent db p v = record {
  unique = λ id. ground (
    arith,
    v.unique id,
    affected-update (has_id id) (has_id p.id) (set_columns p) db.pool (λ r. refl),
  );
  mirrored = ground (arith, v.mirrored, update_none (set_columns p) (has_id p.id) db.pool);
}

paste_delete-IsConsistent :
    (db : Db) (id : Text) → IsConsistent db → IsConsistent (paste_delete none none db id).0
unfolding paste_delete
paste_delete-IsConsistent db id v = record {
  unique = λ j. ground (arith, delete-UniqueIds (has_id id) db.pool v.unique j);
  mirrored = ground (arith, v.mirrored, delete_none (has_id id) db.pool);
}

paste_delete_if_one_use-IsConsistent :
    (db : Db) (id : Text)
    → IsConsistent db
    → IsConsistent (paste_delete_if_one_use none none db id).0
unfolding paste_delete_if_one_use
paste_delete_if_one_use-IsConsistent db id v = record {
  unique = λ j. ground (arith, delete-UniqueIds (has_id_one_use id) db.pool v.unique j);
  mirrored = ground (
    arith,
    v.mirrored,
    delete_one_use id db.pool (v.unique id),
    delete_none (has_id_one_use id) db.pool,
  );
}

delete_same :
    (t u : Paste → Bool) (rows : List Paste)
    → All (λ p. t p ≡ u p) rows
    → delete t rows ≡ delete u rows
unfolding delete
delete_same t u [] h = refl
delete_same t u (p ∷ ps) h = rw h.0 (rw (delete_same t u ps h.1) refl)

paste_delete_expired-IsConsistent :
    (db : Db) (now later : ℕ)
    → IsSteady db (expires now later)
    → IsConsistent db
    → IsConsistent (paste_delete_expired now later none none db).0
unfolding paste_delete_expired
paste_delete_expired-IsConsistent db now later steady v = record {
  unique = delete-UniqueIds (is_expired now) db.pool v.unique;
  mirrored =
      ground (arith, v.mirrored, delete_same (is_expired later) (is_expired now) db.pool steady);
}

live_row :
    (now : ℕ) (id : Text) (rows : List Paste) (p : Paste)
    → All (λ q. (has_id id q && is_expired now q) ≡ false) rows
    → select_row (has_id id) rows ≡ some p
    → is_expired now p ≡ false
unfolding select_row
live_row now id [] p h e = cc
live_row now id (q ∷ qs) p h e = elim (Bool-cases (has_id id q)) [
  | inl i ↦ subst (λ r. is_expired now r ≡ false) (some_inj (rw i at e)) (ground (arith, i, h.0))
  | inr i ↦ live_row now id qs p h.1 (rw i at e)
]
  where
    some_inj : {a b : Paste} → ◌≡◌ {A = Option Paste} (some a) (some b) → a ≡ b
    some_inj k = cc

paste_get-kept :
    (db : Db) (now : ℕ) (id : Text)
    → IsSteady db (looks now id)
    → (paste_get now none none db id).0 ≡ db
unfolding paste_get get_row
paste_get-kept db now id steady = of_row (select_row (has_id id) db.pool) refl
  where
    of_row :
        (o : Option Paste) → select_row (has_id id) db.pool ≡ o → (get_row o now none db).0 ≡ db
    of_row none e = refl
    of_row (some p) e = rw (live_row now id db.pool p steady e) refl

-- Adding, updating, deleting and burning a paste, whether it ends well or with not found or a taken
-- id, a clean-up between whose two readings of the clock no paste expires, and the look-up of a paste
-- that has not expired, keep the ids distinct and the backup, where there is one, equal to the table,
-- if all statements run.
pub step-IsConsistent :
    (db : Db) (c : Call) → IsSteady db c → IsConsistent db → IsConsistent (step db c)
unfolding step
step-IsConsistent db (adds draws now p) steady v =
    add_with_id-IsConsistent (gen_token_crypto 8 draws) now db p v
step-IsConsistent db (updates p) steady v = paste_update-IsConsistent db p v
step-IsConsistent db (deletes id) steady v = paste_delete-IsConsistent db id v
step-IsConsistent db (burns id) steady v = paste_delete_if_one_use-IsConsistent db id v
step-IsConsistent db (expires now later) steady v =
    paste_delete_expired-IsConsistent db now later steady v
step-IsConsistent db (looks now id) steady v =
    subst IsConsistent (sym (paste_get-kept db now id steady)) v
