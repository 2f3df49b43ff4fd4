-- ===== src/Reading/Races.antt =====
-- Requests for a one-use paste whose calls to the database interleave.
use caspaste.Prelude.{
  ℕ, zero, suc, ◌+◌, ◌≤◌, ◌≡◌, refl, Bool, true, ◌&&◌, ◌||◌, not, some, List, [], ◌∷◌, Text,
  text_eq, arith,
}
use caspaste.Prelude.Table.{Outcome, affected, select_row}
use caspaste.Storage.{Db, has_id_one_use}
use caspaste.Storage.Rows.{Paste, has_id}
use caspaste.Storage.Expiry.{UniqueIds}
use caspaste.Reading.{Reader, step}
use caspaste.Reading.Takes.{
  serves, has_id_reusable, consumes, reader_takes, step_shrinks, affected-split,
}

-- The next call of the request at an index, with its time and outcomes.
pub record Turn : Type 0 where
  pub index : ℕ
  pub now : ℕ
  pub primary : Outcome
  pub backup : Outcome

unfoldable pub step_at : ℕ → Turn → Db → List Reader → Db × List Reader
step_at i t db [] = (db, [])
step_at zero t db (r ∷ rs) = let (db', r') = step t.now t.primary t.backup db r in (db', r' ∷ rs)
step_at (suc i) t db (r ∷ rs) = let (db', rs') = step_at i t db rs in (db', r ∷ rs')

-- The requests take turns in any order.
unfoldable pub run : List Turn → Db → List Reader → Db × List Reader
run [] db rs = (db, rs)
run (t ∷ ts) db rs = let (db', rs') = step_at t.index t db rs in run ts db' rs'

-- The requests that have shown the paste of an id.
unfoldable pub served_count : Text → List Reader → ℕ
served_count id [] = 0
served_count id (r ∷ rs) = serves id r + served_count id rs

-- The requests for an id all come by routes that consume it.
abbrev pub all_consume_id : Text → List Reader → Bool
all_consume_id id [] = true
all_consume_id id (r ∷ rs) = (consumes r.route || not (text_eq r.id id)) && all_consume_id id rs

-- The rows of an id and the requests that have shown its paste.
abbrev potential : Text → Db × List Reader → ℕ
potential id (db, rs) = affected (has_id id) db.pool + served_count id rs

record Continues (id : Text) (s s' : Db × List Reader) : Type 0 where
  takes : potential id s' ≤ potential id s
  one_use : affected (has_id_reusable id) s'.0.pool ≡ 0
  consume : all_consume_id id s'.1 ≡ true

step_at-Continues :
    (i : ℕ) (t : Turn) (db : Db) (rs : List Reader) (id : Text)
    → all_consume_id id rs ≡ true
    → affected (has_id_reusable id) db.pool ≡ 0
    → Continues id (db, rs) (step_at i t db rs)
unfolding step_at served_count step
step_at-Continues i t db [] id c z = record { takes = omega arith; one_use = z; consume = refl }
step_at-Continues zero t db (r ∷ rs) id c z = record {
  takes = omega (arith, reader_takes t.now t.primary t.backup db r id (ground (arith, c)) z);
  one_use = omega (
    arith,
    z,
    step_shrinks t.now t.primary t.backup db r.route r.id r.phase (has_id_reusable id),
  );
  consume = c;
}
step_at-Continues (suc i) t db (r ∷ rs) id c z =
    let later = step_at-Continues i t db rs id (ground (arith, c)) z in
    record {
      takes = omega (arith, later.takes);
      one_use = later.one_use;
      consume = ground (arith, c, later.consume);
    }

run-Continues :
    (ts : List Turn) (db : Db) (rs : List Reader) (id : Text)
    → all_consume_id id rs ≡ true
    → affected (has_id_reusable id) db.pool ≡ 0
    → Continues id (db, rs) (run ts db rs)
unfolding run
run-Continues [] db rs id c z = record { takes = omega arith; one_use = z; consume = c }
run-Continues (t ∷ ts) db rs id c z =
    let first = step_at-Continues t.index t db rs id c z in
    let (db', rs') = step_at t.index t db rs in
    let rest = run-Continues ts db' rs' id first.consume first.one_use in
    record {
      takes = omega (arith, first.takes, rest.takes);
      one_use = rest.one_use;
      consume = rest.consume;
    }

pub one_use_row :
    (id : Text) (rs : List Paste) (p : Paste)
    → select_row (has_id id) rs ≡ some p
    → p.one_use ≡ true
    → 1 ≤ affected (has_id_one_use id) rs
unfolding affected select_row
one_use_row id [] p e o = cc
one_use_row id (r ∷ rs) p e o = ground (arith, one_use_row id rs p)

-- However the calls of any number of requests interleave, whatever their statements come to and
-- wherever the requests stop, at most one request is shown the content of a one-use paste. The
-- requests for it are new and come by the API, the raw text, the download or the page; requests for
-- other pastes run among them. No two rows have one id.
pub run-served_once :
    (ts : List Turn) (db : Db) (rs : List Reader) (id : Text) (p : Paste)
    → UniqueIds db.pool
    → select_row (has_id id) db.pool ≡ some p
    → p.one_use ≡ true
    → all_consume_id id rs ≡ true
    → served_count id rs ≡ 0
    → served_count id (run ts db rs).1 ≤ 1
run-served_once ts db rs id p u e o c n =
    let split = affected-split id db.pool in
    let row = one_use_row id db.pool p e o in
    let reusable : affected (has_id_reusable id) db.pool ≡ 0 = omega (arith, u id) in
    omega (arith, u id, (run-Continues ts db rs id c reusable).takes)
