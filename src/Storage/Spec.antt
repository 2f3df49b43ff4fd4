-- ===== src/Storage/Spec.antt =====
-- The contract of the storage: pastes by their ids, without rows, order or a backup.
use caspaste.Prelude.{
  ℕ, Bool, true, false, Option, none, some, List, [], if◌then◌else◌, Text, text_eq,
}
use caspaste.Prelude.Table.{Outcome, select_row}
use caspaste.Storage.Rows.{Paste, has_id, is_expired}
use caspaste.Storage.{
  Error, Result, ok, err, driver, not_found_id, unique_violation, Db, Added, added,
  gen_token_crypto, row_of, set_columns, paste_add, paste_update, paste_delete,
  paste_delete_if_one_use, paste_get, paste_delete_expired,
}

abbrev pub Pastes : Type 0
Pastes = Text → Option Paste

pub data Command : Type 0 where
  add : List (Option ℕ) → ℕ → Paste → Command
  edit : Paste → Command
  remove burn : Text → Command
  read : ℕ → Text → Command
  expire : ℕ → ℕ → Command

pub data Answer : Type 0 where
  adding : Added → Answer
  changing : Result (Unit {0}) → Answer
  burning : Result Bool → Answer
  reading : Result Paste → Answer
  expiring : Option Error → Answer

abbrev counted : Result ℕ → Option Error
counted (ok n) = none
counted (err e) = some e

-- What the code does, and its answer; of the removal of expired pastes only the error.
unfoldable pub perform : Command → Outcome → Outcome → Db → Db × Answer
perform (add draws now p) o₁ o₂ db = let r = paste_add draws now o₁ o₂ db p in (r.0, adding r.1)
perform (edit p) o₁ o₂ db = let r = paste_update o₁ o₂ db p in (r.0, changing r.1)
perform (remove id) o₁ o₂ db = let r = paste_delete o₁ o₂ db id in (r.0, changing r.1)
perform (burn id) o₁ o₂ db = let r = paste_delete_if_one_use o₁ o₂ db id in (r.0, burning r.1)
perform (read now id) o₁ o₂ db = let r = paste_get now o₁ o₂ db id in (r.0, reading r.1)
perform (expire now later) o₁ o₂ db =
    let r = paste_delete_expired now later o₁ o₂ db in (r.0, expiring (counted r.1))

abbrev pub with : Paste → Pastes → Pastes
with p m j = if text_eq p.id j then some p else m j

abbrev pub without : Text → Pastes → Pastes
without id m j = if text_eq id j then none else m j

abbrev pub fresh : Option Paste → Paste → Pastes → Pastes × Answer
fresh (some q) row m = (m, adding (added row (some unique_violation)))
fresh none row m = (with row m, adding (added row none))

abbrev pub drawn : Result Text → ℕ → Outcome → Paste → Pastes → Pastes × Answer
drawn (err e) now o p m = (m, adding (added (record p { id = [] }) (some e)))
drawn (ok id) now (some e) p m = (m, adding (added (row_of id now p) (some (driver e))))
drawn (ok id) now none p m = fresh (m id) (row_of id now p) m

-- The paste under the id is another one, or it is gone.
abbrev pub replaced : (Paste → Pastes → Pastes) → Option Paste → Pastes → Pastes × Answer
replaced change none m = (m, changing (err not_found_id))
replaced change (some q) m = (change q m, changing (ok tt))

abbrev pub burnt : Text → Option Paste → Pastes → Pastes × Answer
burnt id none m = (m, burning (ok false))
burnt id (some q) m =
    if q.one_use then (without id m, burning (ok true)) else (m, burning (ok false))

abbrev pub expired : Text → Outcome → Pastes → Pastes × Answer
expired id (some e) m = (m, reading (err (driver e)))
expired id none m = (without id m, reading (err not_found_id))

abbrev pub read_at : ℕ → Text → Outcome → Option Paste → Pastes → Pastes × Answer
read_at now id o none m = (m, reading (err not_found_id))
read_at now id o (some q) m = if is_expired now q then expired id o m else (m, reading (ok q))

abbrev pub unexpired : ℕ → Option Paste → Option Paste
unexpired now none = none
unexpired now (some q) = if is_expired now q then none else some q

-- What a command does to the pastes. The outcome of the statement on the backup plays no part; the
-- second outcome is for the deletion of an expired paste by a reader.
unfoldable pub specified : Command → Outcome → Outcome → Pastes → Pastes × Answer
specified (add draws now p) o₁ o₂ m = drawn (gen_token_crypto 8 draws) now o₁ p m
specified (edit p) (some e) o₂ m = (m, changing (err (driver e)))
specified (edit p) none o₂ m = replaced (λ q. with (set_columns p q)) (m p.id) m
specified (remove id) (some e) o₂ m = (m, changing (err (driver e)))
specified (remove id) none o₂ m = replaced (λ q. without id) (m id) m
specified (burn id) (some e) o₂ m = (m, burning (err (driver e)))
specified (burn id) none o₂ m = burnt id (m id) m
specified (read now id) (some e) o₂ m = (m, reading (err (driver e)))
specified (read now id) none o₂ m = read_at now id o₂ (m id) m
specified (expire now later) (some e) o₂ m = (m, expiring (some (driver e)))
specified (expire now later) none o₂ m = (λ j. unexpired now (m j), expiring none)

-- The pastes of a database.
abbrev pub view : Db → Pastes
view db j = select_row (has_id j) db.pool
