-- ===== src/Reading/Takes.antt =====
-- A call for a one-use paste shows it only if it takes the row.
use caspaste.Prelude.{
  ℕ, ◌+◌, ◌≤◌, ◌≡◌, refl, sym, Bool, true, false, ◌&&◌, ◌||◌, not, Option, none, some, List, [],
  ◌∷◌, if◌then◌else◌, inl, inr, Bool-cases, Text, text_eq, text_eq_iff, arith,
}
use caspaste.Prelude.Table.{Outcome, affected, select_row}
use caspaste.Prelude.Table.Laws.{affected-delete, affected-delete-le}
use caspaste.Storage
use caspaste.Storage.{Db, get_row, paste_get, paste_delete, paste_delete_if_one_use, has_id_one_use}
use caspaste.Storage.Rows.{Paste, has_id}
use caspaste.Storage.Expiry.{paste_get-eq_ok}
use caspaste.Reading.{
  Route, api, raw, download, hastebin, embedded, page, Phase, arrived, asked, found, served,
  refused, Reader, removal, deleted, burnt, looked, step,
}

abbrev is_served : Phase → Bool
is_served (served p) = true
is_served _ = false

abbrev pub shown : Phase → ℕ
shown phase = if is_served phase then 1 else 0

abbrev pub serves : Text → Reader → ℕ
serves id r = if text_eq r.id id then shown r.phase else 0

abbrev pub has_id_reusable : Text → Paste → Bool
has_id_reusable id p = has_id id p && not p.one_use

-- The routes that give up where the deletion fails.
abbrev pub consumes : Route → Bool
consumes hastebin = false
consumes embedded = false
consumes _ = true

-- No call adds a row.
row_shrinks :
    (row : Option Paste) (now : ℕ) (o₂ : Outcome) (db : Db) (test : Paste → Bool)
    → affected test (get_row row now o₂ db).0.pool ≤ affected test db.pool
unfolding get_row
row_shrinks none now o₂ db test = omega arith
row_shrinks (some q) now (some e) db test = ground arith
row_shrinks (some q) now none db test =
    ground (arith, affected-delete-le test (has_id q.id) db.pool)

get_shrinks :
    (now : ℕ) (o₁ o₂ : Outcome) (db : Db) (id : Text) (test : Paste → Bool)
    → affected test (paste_get now o₁ o₂ db id).0.pool ≤ affected test db.pool
unfolding paste_get
get_shrinks now (some e) o₂ db id test = omega arith
get_shrinks now none o₂ db id test = row_shrinks (select_row (has_id id) db.pool) now o₂ db test

delete_shrinks :
    (o₁ o₂ : Outcome) (db : Db) (id : Text) (test : Paste → Bool)
    → affected test (paste_delete o₁ o₂ db id).0.pool ≤ affected test db.pool
unfolding paste_delete
delete_shrinks (some e) o₂ db id test = omega arith
delete_shrinks none o₂ db id test = ground (arith, affected-delete-le test (has_id id) db.pool)

burn_shrinks :
    (o₁ o₂ : Outcome) (db : Db) (id : Text) (test : Paste → Bool)
    → affected test (paste_delete_if_one_use o₁ o₂ db id).0.pool ≤ affected test db.pool
unfolding paste_delete_if_one_use
burn_shrinks (some e) o₂ db id test = omega arith
burn_shrinks none o₂ db id test =
    ground (arith, affected-delete-le test (has_id_one_use id) db.pool)

removal_shrinks :
    (route : Route) (o₁ o₂ : Outcome) (db : Db) (id : Text) (p : Paste) (test : Paste → Bool)
    → affected test (removal route o₁ o₂ db id p).0.pool ≤ affected test db.pool
unfolding removal
removal_shrinks (page c) o₁ o₂ db id p test = burn_shrinks o₁ o₂ db id test
removal_shrinks hastebin o₁ o₂ db id p test = delete_shrinks o₁ o₂ db id test
removal_shrinks api o₁ o₂ db id p test = delete_shrinks o₁ o₂ db id test
removal_shrinks raw o₁ o₂ db id p test = delete_shrinks o₁ o₂ db id test
removal_shrinks download o₁ o₂ db id p test = delete_shrinks o₁ o₂ db id test
removal_shrinks embedded o₁ o₂ db id p test = delete_shrinks o₁ o₂ db id test

pub step_shrinks :
    (now : ℕ) (o₁ o₂ : Outcome) (db : Db) (route : Route) (id : Text) (phase : Phase)
    (test : Paste → Bool)
    → affected test (step now o₁ o₂ db (record { route = route; id = id; phase = phase })).0.pool
      ≤ affected test db.pool
unfolding step
step_shrinks now o₁ o₂ db route id arrived test = get_shrinks now o₁ o₂ db id test
step_shrinks now o₁ o₂ db route id (found p) test = removal_shrinks route o₁ o₂ db id p test
step_shrinks now o₁ o₂ db route id asked test = omega arith
step_shrinks now o₁ o₂ db route id (served p) test = omega arith
step_shrinks now o₁ o₂ db route id (refused e) test = omega arith

-- A deletion that succeeds takes a row.
delete_takes :
    (o₁ o₂ : Outcome) (db : Db) (id : Text) (p : Paste)
    → affected (has_id id) (paste_delete o₁ o₂ db id).0.pool
        + shown (deleted p (paste_delete o₁ o₂ db id).1)
      ≤ affected (has_id id) db.pool
unfolding paste_delete
delete_takes (some e) o₂ db id p = omega arith
delete_takes none o₂ db id p = ground (arith, affected-delete (has_id id) db.pool)

burn_takes :
    (o₁ o₂ : Outcome) (db : Db) (id : Text) (p : Paste)
    → affected (has_id_one_use id) (paste_delete_if_one_use o₁ o₂ db id).0.pool
        + shown (burnt p (paste_delete_if_one_use o₁ o₂ db id).1)
      ≤ affected (has_id_one_use id) db.pool
unfolding paste_delete_if_one_use
burn_takes (some e) o₂ db id p = omega arith
burn_takes none o₂ db id p = ground (arith, affected-delete (has_id_one_use id) db.pool)

-- The rows of an id are the one-use ones and the others.
pub affected-split :
    (id : Text) (rs : List Paste)
    → affected (has_id id) rs ≡ affected (has_id_one_use id) rs + affected (has_id_reusable id) rs
unfolding affected
affected-split id [] = refl
affected-split id (r ∷ rs) = ground (arith, affected-split id rs)

select_row_one_use :
    (id : Text) (rs : List Paste) (p : Paste)
    → affected (has_id_reusable id) rs ≡ 0
    → select_row (has_id id) rs ≡ some p
    → p.one_use ≡ true
unfolding affected select_row
select_row_one_use id [] p z e = cc
select_row_one_use id (r ∷ rs) p z e = ground (arith, select_row_one_use id rs p)

looked_one_use :
    (route : Route) (p : Paste)
    → consumes route ≡ true
    → p.one_use ≡ true
    → is_served (looked route (Storage.Result.ok p)) ≡ false
looked_one_use embedded p c o = cc
looked_one_use hastebin p c o = cc
looked_one_use api p c o = ground arith
looked_one_use raw p c o = ground arith
looked_one_use download p c o = ground arith
looked_one_use (page true) p c o = ground arith
looked_one_use (page false) p c o = ground arith

-- The first call does not show a one-use paste.
looks_only :
    (route : Route) (answer : Storage.Result Paste)
    → consumes route ≡ true
    → ((p : Paste) → answer ≡ Storage.Result.ok p → p.one_use ≡ true)
    → is_served (looked route answer) ≡ false
looks_only route (Storage.Result.err e) c o = refl
looks_only route (Storage.Result.ok p) c o = looked_one_use route p c (o p refl)

removal_takes :
    (route : Route) (o₁ o₂ : Outcome) (db : Db) (id : Text) (p : Paste)
    → consumes route ≡ true
    → affected (has_id_reusable id) db.pool ≡ 0
    → affected (has_id id) (removal route o₁ o₂ db id p).0.pool
        + shown (removal route o₁ o₂ db id p).1
      ≤ affected (has_id id) db.pool
unfolding removal
removal_takes (page c) o₁ o₂ db id p k z = omega (
  arith,
  burn_takes o₁ o₂ db id p,
  burn_shrinks o₁ o₂ db id (has_id_reusable id),
  affected-split id db.pool,
  affected-split id (paste_delete_if_one_use o₁ o₂ db id).0.pool,
)
removal_takes hastebin o₁ o₂ db id p k z = cc
removal_takes embedded o₁ o₂ db id p k z = cc
removal_takes api o₁ o₂ db id p k z = delete_takes o₁ o₂ db id p
removal_takes raw o₁ o₂ db id p k z = delete_takes o₁ o₂ db id p
removal_takes download o₁ o₂ db id p k z = delete_takes o₁ o₂ db id p

-- A call for the id shows the paste only if it takes a row.
step_takes :
    (now : ℕ) (o₁ o₂ : Outcome) (db : Db) (route : Route) (id : Text) (phase : Phase)
    → consumes route ≡ true
    → affected (has_id_reusable id) db.pool ≡ 0
    → let (db', r) = step now o₁ o₂ db (record { route = route; id = id; phase = phase }) in
      affected (has_id id) db'.pool + shown r.phase ≤ affected (has_id id) db.pool + shown phase
unfolding step
step_takes now o₁ o₂ db route id arrived c z =
    let one_use : (p : Paste)
        → (paste_get now o₁ o₂ db id).1 ≡ Storage.Result.ok p
        → p.one_use ≡ true =
      λ p e. select_row_one_use id db.pool p z (paste_get-eq_ok now o₁ o₂ db id p e).2 in
    rw (looks_only route (paste_get now o₁ o₂ db id).1 c one_use)
      (omega (arith, get_shrinks now o₁ o₂ db id (has_id id)))
step_takes now o₁ o₂ db route id (found p) c z =
    omega (arith, removal_takes route o₁ o₂ db id p c z)
step_takes now o₁ o₂ db route id asked c z = omega arith
step_takes now o₁ o₂ db route id (served p) c z = omega arith
step_takes now o₁ o₂ db route id (refused e) c z = omega arith

pub reader_takes :
    (now : ℕ) (o₁ o₂ : Outcome) (db : Db) (r : Reader) (id : Text)
    → (consumes r.route || not (text_eq r.id id)) ≡ true
    → affected (has_id_reusable id) db.pool ≡ 0
    → let (db', r') = step now o₁ o₂ db r in
      affected (has_id id) db'.pool + serves id r' ≤ affected (has_id id) db.pool + serves id r
unfolding step
reader_takes now o₁ o₂ db r id c z = elim (Bool-cases (text_eq r.id id)) [
  | inl t ↦
      let same = (text_eq_iff r.id id).0 t in
      let takes = step_takes now o₁ o₂ db r.route r.id r.phase (ground (arith, t)) (rw same z) in
      rw t (rw (sym same) takes)
  | inr f ↦ rw f (omega (arith, step_shrinks now o₁ o₂ db r.route r.id r.phase (has_id id)))
]
