-- ===== src/Storage/Refinement.antt =====
-- The database does what the contract says, command after command.
use caspaste.Prelude.{
  ℕ, fun_ext, ◌≤◌, ◌≡◌, refl, sym, ap, ◌∙◌, true, false, inl, inr, Bool-cases, Option, none, some,
  List, [], ◌∷◌, if◌then◌else◌, Text, text_eq, text_eq_iff, arith,
}
use caspaste.Prelude.Table.{Outcome, select_row, delete, affected}
use caspaste.Prelude.Table.Laws.{affected-zero_iff, delete_none, select_row-delete_unique}
use caspaste.Storage.Rows.{Paste, has_id, is_expired}
use caspaste.Storage.Expiry.{UniqueIds}
use caspaste.Storage.Mirror.{delete-UniqueIds}
use caspaste.Storage.Lookup.{select_row-delete_id}
use caspaste.Storage.Writes.{Agrees, unchanged, found_id, add-Agrees, edit-Agrees, remove-Agrees}
use caspaste.Storage.Spec.{
  Pastes, Command, add, edit, remove, burn, read, expire, Answer, changing, burning, reading,
  expiring, perform, specified, view, without, burnt, read_at, unexpired,
}
use caspaste.Storage.{
  ok, err, driver, not_found_id, Db, gen_token_crypto, get_row, has_id_one_use, paste_add,
  paste_update, paste_delete, paste_delete_if_one_use, paste_get, paste_delete_expired,
}

-- Whether a row with the id that may be burnt is affected, where at most one has the id.
one_use_miss :
    (id : Text) (rows : List Paste)
    → select_row (has_id id) rows ≡ none
    → affected (has_id_one_use id) rows ≡ 0
unfolding affected select_row
one_use_miss id [] h = refl
one_use_miss id (r ∷ rs) h = ground (arith, one_use_miss id rs, h)

one_use_hit :
    (id : Text) (rows : List Paste) (q : Paste)
    → affected (has_id id) rows ≤ 1
    → select_row (has_id id) rows ≡ some q
    → affected (has_id_one_use id) rows ≡ (if q.one_use then 1 else 0)
unfolding affected select_row
one_use_hit id [] q u h = cc
one_use_hit id (r ∷ rs) q u h =
    ground (arith, one_use_hit id rs q, one_use_miss id rs, affected-zero_iff (has_id id) rs, h, u)

burnt_rows :
    (id j : Text) (rows : List Paste)
    → UniqueIds rows
    → select_row (has_id j) (delete (has_id_one_use id) rows) ≡ (elim (select_row (has_id j) rows) [
      | none ↦ none
      | some r ↦ (if has_id_one_use id r then none else some r)
    ])
burnt_rows id j rows u = select_row-delete_unique (has_id j) (has_id_one_use id) rows (u j)

burnt_view :
    (id j : Text) (rows : List Paste) (q : Paste)
    → UniqueIds rows
    → select_row (has_id id) rows ≡ some q
    → q.one_use ≡ true
    → select_row (has_id j) (delete (has_id_one_use id) rows)
      ≡ (if text_eq id j then none else select_row (has_id j) rows)
burnt_view id j rows q u h t = burnt_rows id j rows u ∙ elim (Bool-cases (text_eq id j)) [
  | inl e ↦
      of_id ((text_eq_iff id j).0 e) (select_row (has_id j) rows) refl
      ∙ ap (λ b. if b then none else select_row (has_id j) rows) (sym e)
  | inr f ↦
      of_other f (select_row (has_id j) rows) refl
      ∙ ap (λ b. if b then none else select_row (has_id j) rows) (sym f)
]
  where
    spared : Option Paste → Option Paste
    spared o = elim o [ none ↦ none | some r ↦ (if has_id_one_use id r then none else some r) ]

    of_id : id ≡ j → (o : Option Paste) → select_row (has_id j) rows ≡ o → spared o ≡ none
    of_id e none k = refl
    of_id e (some r) k =
        let same : r ≡ q =
          ground (arith, sym k ∙ ap (λ i. select_row (has_id i) rows) (sym e) ∙ h) in
        rw same (ground (arith, t, (text_eq_iff q.id id).1 (found_id id rows q h)))

    of_other :
        text_eq id j ≡ false → (o : Option Paste) → select_row (has_id j) rows ≡ o → spared o ≡ o
    of_other f none k = refl
    of_other f (some r) k =
        ground (arith, f, found_id j rows r k, text_eq_iff r.id id, text_eq_iff id j)

module _ (id : Text) (o₂ : Outcome) (db : Db) (u : UniqueIds db.pool) where
  burn-spared :
      affected (has_id_one_use id) db.pool ≡ 0
      → Agrees
          (let r = paste_delete_if_one_use none o₂ db id in (r.0, burning r.1))
          (view db, burning (ok false))
  unfolding paste_delete_if_one_use
  burn-spared n = rw n (record {
    pastes = λ j. ap (select_row (has_id j)) (delete_none (has_id_one_use id) db.pool n);
    answer = refl;
    unique = delete-UniqueIds (has_id_one_use id) db.pool u;
  })

  burn-taken :
      (q : Paste)
      → view db id ≡ some q
      → q.one_use ≡ true
      → affected (has_id_one_use id) db.pool ≡ 1
      → Agrees
          (let r = paste_delete_if_one_use none o₂ db id in (r.0, burning r.1))
          (without id (view db), burning (ok true))
  unfolding paste_delete_if_one_use
  burn-taken q h t n = rw n (record {
    pastes = λ j. burnt_view id j db.pool q u h t;
    answer = refl;
    unique = delete-UniqueIds (has_id_one_use id) db.pool u;
  })

  burn-Agrees :
      (o : Option Paste)
      → view db id ≡ o
      → Agrees
          (let r = paste_delete_if_one_use none o₂ db id in (r.0, burning r.1))
          (burnt id o (view db))
  burn-Agrees none h = burn-spared (one_use_miss id db.pool h)
  burn-Agrees (some q) h = elim (Bool-cases q.one_use) [
    | inl t ↦
        rw t (burn-taken q h t (one_use_hit id db.pool q (u id) h ∙ ap (λ b. if b then 1 else 0) t))
    | inr f ↦
        rw f (burn-spared (one_use_hit id db.pool q (u id) h ∙ ap (λ b. if b then 1 else 0) f))
  ]

read_expired-Agrees :
    (now : ℕ) (id : Text) (o₂ : Outcome) (db : Db) (q : Paste)
    → UniqueIds db.pool
    → view db id ≡ some q
    → is_expired now q ≡ true
    → Agrees
        (let r = get_row (some q) now o₂ db in (r.0, reading r.1))
        (read_at now id o₂ (some q) (view db))
unfolding get_row
read_expired-Agrees now id (some e) db q u h x = rw x (unchanged db (reading (err (driver e))) u)
read_expired-Agrees now id none db q u h x = rw x (record {
  pastes = λ j.
      select_row-delete_id q.id j db.pool
      ∙ ap (λ i. if text_eq i j then none else view db j) (found_id id db.pool q h);
  answer = refl;
  unique = delete-UniqueIds (has_id q.id) db.pool u;
})

row-Agrees :
    (now : ℕ) (id : Text) (o₂ : Outcome) (db : Db) (o : Option Paste)
    → UniqueIds db.pool
    → view db id ≡ o
    → Agrees (let r = get_row o now o₂ db in (r.0, reading r.1)) (read_at now id o₂ o (view db))
unfolding get_row
row-Agrees now id o₂ db none u h = unchanged db (reading (err not_found_id)) u
row-Agrees now id o₂ db (some q) u h = elim (Bool-cases (is_expired now q)) [
  | inl x ↦ read_expired-Agrees now id o₂ db q u h x
  | inr f ↦ rw f (unchanged db (reading (ok q)) u)
]

expire-Agrees :
    (now later : ℕ) (o₂ : Outcome) (db : Db)
    → UniqueIds db.pool
    → Agrees
        (perform (expire now later) none o₂ db)
        (specified (expire now later) none o₂ (view db))
unfolding perform specified paste_delete_expired
expire-Agrees now later o₂ db u = record {
  pastes =
      λ j. select_row-delete_unique (has_id j) (is_expired now) db.pool (u j) ∙ live (view db j);
  answer = refl;
  unique = delete-UniqueIds (is_expired now) db.pool u;
}
  where
    live :
        (o : Option Paste)
        → (elim o [ none ↦ none | some r ↦ (if is_expired now r then none else some r) ])
          ≡ unexpired now o
    live none = refl
    live (some r) = refl

perform-Agrees :
    (c : Command) (o₁ o₂ : Outcome) (db : Db)
    → UniqueIds db.pool
    → Agrees (perform c o₁ o₂ db) (specified c o₁ o₂ (view db))
unfolding perform specified paste_add paste_update paste_delete paste_delete_if_one_use paste_get
    paste_delete_expired
perform-Agrees (add draws now p) o₁ o₂ db u = add-Agrees (gen_token_crypto 8 draws) now o₁ o₂ p db u
perform-Agrees (edit p) (some e) o₂ db u = unchanged db (changing (err (driver e))) u
perform-Agrees (edit p) none o₂ db u = edit-Agrees p o₂ db (view db p.id) u refl
perform-Agrees (remove id) (some e) o₂ db u = unchanged db (changing (err (driver e))) u
perform-Agrees (remove id) none o₂ db u = remove-Agrees id o₂ db (view db id) u refl
perform-Agrees (burn id) (some e) o₂ db u = unchanged db (burning (err (driver e))) u
perform-Agrees (burn id) none o₂ db u = burn-Agrees id o₂ db u (view db id) refl
perform-Agrees (read now id) (some e) o₂ db u = unchanged db (reading (err (driver e))) u
perform-Agrees (read now id) none o₂ db u = row-Agrees now id o₂ db (view db id) u refl
perform-Agrees (expire now later) (some e) o₂ db u = unchanged db (expiring (some (driver e))) u
perform-Agrees (expire now later) none o₂ db u = expire-Agrees now later o₂ db u

-- The answers to commands in a row, each with what its two statements came to.
unfoldable pub answers : List (Command × Outcome × Outcome) → Db → List Answer
answers [] db = []
answers ((c, o₁, o₂) ∷ cs) db = let r = perform c o₁ o₂ db in r.1 ∷ answers cs r.0

unfoldable pub expected : List (Command × Outcome × Outcome) → Pastes → List Answer
expected [] m = []
expected ((c, o₁, o₂) ∷ cs) m = let r = specified c o₁ o₂ m in r.1 ∷ expected cs r.0

-- Whatever commands follow one another, and whichever of their statements the driver refuses, a
-- database whose ids are distinct gives the answers of the contract: those of a map of pastes by
-- their ids, in which neither the order of the rows nor the backup has a part.
pub answers-expected :
    (cs : List (Command × Outcome × Outcome)) (db : Db)
    → UniqueIds db.pool
    → answers cs db ≡ expected cs (view db)
unfolding answers expected
answers-expected [] db u = refl
answers-expected ((c, o₁, o₂) ∷ cs) db u =
    let a = perform-Agrees c o₁ o₂ db u in
    let r = perform c o₁ o₂ db in
    let s = specified c o₁ o₂ (view db) in
    ap (λ x. x ∷ answers cs r.0) a.answer
    ∙ ap (◌∷◌ s.1) (answers-expected cs r.0 a.unique ∙ ap (expected cs) (fun_ext a.pastes))
