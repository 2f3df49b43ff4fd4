-- ===== src/Storage/OneUse.antt =====
-- Burn after reading: of all callers that try to consume a paste, one succeeds.
use caspaste.Prelude.{
  ℕ, ◌+◌, ◌≡◌, refl, Bool, true, false, none, some, List, [], ◌∷◌, ◌==◌, if◌then◌else◌, Text, arith,
}
use caspaste.Prelude.Table.{affected}
use caspaste.Prelude.Table.Laws.{affected-delete}
use caspaste.Prelude.Table.{Outcome}
use caspaste.Storage.{Result, ok, err, driver, Db, has_id_one_use, paste_delete_if_one_use}

abbrev wins : Result Bool → ℕ
wins (ok true) = 1
wins (ok false) = 0
wins (err e) = 0

-- The callers that are told `true`, when each calls with these outcomes of its statements in turn.
unfoldable pub winners : Db → Text → List (Outcome × Outcome) → ℕ
winners db id [] = 0
winners db id ((o₁, o₂) ∷ calls) =
    let (db', r) = paste_delete_if_one_use o₁ o₂ db id in wins r + winners db' id calls

-- All the calls fail at the primary database.
abbrev pub all_fail : List (Outcome × Outcome) → Bool
all_fail [] = true
all_fail ((none, o₂) ∷ calls) = false
all_fail ((some e, o₂) ∷ calls) = all_fail calls

-- A call that reaches the database takes every such row.
consumed :
    (o₂ : Outcome) (db : Db) (id : Text)
    → affected (has_id_one_use id) (paste_delete_if_one_use none o₂ db id).0.pool ≡ 0
unfolding paste_delete_if_one_use
consumed o₂ db id = ground (arith, affected-delete (has_id_one_use id) db.pool)

first_call :
    (o₂ : Outcome) (db : Db) (id : Text)
    → wins (paste_delete_if_one_use none o₂ db id).1
      ≡ (if affected (has_id_one_use id) db.pool == 0 then 0 else 1)
unfolding paste_delete_if_one_use
first_call o₂ db id = ground arith

failed_call :
    (e : ℕ) (o₂ : Outcome) (db : Db) (id : Text)
    → paste_delete_if_one_use (some e) o₂ db id ≡ (db, err (driver e))
unfolding paste_delete_if_one_use
failed_call e o₂ db id = refl

winners_gone :
    (calls : List (Outcome × Outcome)) (db : Db) (id : Text)
    → affected (has_id_one_use id) db.pool ≡ 0
    → winners db id calls ≡ 0
unfolding winners
winners_gone [] db id h = refl
winners_gone ((some e, o₂) ∷ calls) db id h =
    rw (failed_call e o₂ db id) (omega (arith, winners_gone calls db id h))
winners_gone ((none, o₂) ∷ calls) db id h = ground (
  arith,
  first_call o₂ db id,
  winners_gone calls (paste_delete_if_one_use none o₂ db id).0 id (consumed o₂ db id),
)

-- However many callers race for a one-use paste, exactly one of them is told that it consumed the
-- paste, provided that one of them reaches the primary database and that the paste is there; none
-- is told so otherwise.
pub winners_lem :
    (calls : List (Outcome × Outcome)) (db : Db) (id : Text)
    → winners db id calls
      ≡ (if all_fail calls then 0 else if affected (has_id_one_use id) db.pool == 0 then 0 else 1)
unfolding winners
winners_lem [] db id = refl
winners_lem ((some e, o₂) ∷ calls) db id =
    rw (failed_call e o₂ db id) (omega (arith, winners_lem calls db id))
winners_lem ((none, o₂) ∷ calls) db id = ground (
  arith,
  first_call o₂ db id,
  winners_gone calls (paste_delete_if_one_use none o₂ db id).0 id (consumed o₂ db id),
)
