-- ===== src/Reading/Alone.antt =====
-- A request that no other one interrupts.
use caspaste.Prelude.{
  ℕ, ◌≤◌, ◌≡◌, refl, ap, ◌∙◌, Bool, true, false, Option, none, some, [], Text, text_eq, arith,
}
use caspaste.Prelude.Table.{affected, select_row}
use caspaste.Prelude.Table.Laws.{
  select_row-delete-none, select_row-delete_unique, select_row-eq_some, affected-zero_iff,
}
use caspaste.RateLimit.{check_and_use_all}
use caspaste.Storage
use caspaste.Storage.{Db, get_row, paste_get, paste_delete, paste_delete_if_one_use, has_id_one_use}
use caspaste.Storage.Rows.{Paste, has_id, is_expired}
use caspaste.Reading.Races.{one_use_row}
use caspaste.Reading.{
  Route, api, raw, download, hastebin, embedded, page, found, served, refused, World, Server,
  removal, looked, step, read_through, after_limit, get_paste, is_missing, storage,
}

-- The handlers that delete what they show.
abbrev pub burns : Route → Bool
burns embedded = false
burns (page false) = false
burns _ = true

-- The statements of both calls all run.
pub record Works (w : World) : Type 0 where
  pub get₁ : w.get₁ ≡ none
  pub get₂ : w.get₂ ≡ none
  pub write₁ : w.write₁ ≡ none
  pub write₂ : w.write₂ ≡ none

pub get_live :
    (now : ℕ) (db : Db) (id : Text) (p : Paste)
    → select_row (has_id id) db.pool ≡ some p
    → is_expired now p ≡ false
    → paste_get now none none db id ≡ (db, Storage.Result.ok p)
unfolding paste_get get_row
get_live now db id p s x = rw s (rw x refl)

delete_works :
    (db : Db) (id : Text) (p : Paste)
    → select_row (has_id id) db.pool ≡ some p
    → ((paste_delete none none db id).1 ≡ Storage.Result.ok tt)
      × (select_row (has_id id) (paste_delete none none db id).0.pool ≡ none)
unfolding paste_delete
delete_works db id p s =
    let gone = select_row-delete-none (has_id id) (has_id id) db.pool (λ r h. h) in
    ground (arith, affected-zero_iff (has_id id) db.pool, s, gone)

-- Where no two rows have one id, the deletion of a one-use paste leaves no other row of its id.
burn_works :
    (db : Db) (id : Text) (p : Paste)
    → affected (has_id id) db.pool ≤ 1
    → select_row (has_id id) db.pool ≡ some p
    → p.one_use ≡ true
    → ((paste_delete_if_one_use none none db id).1 ≡ Storage.Result.ok true)
      × (select_row (has_id id) (paste_delete_if_one_use none none db id).0.pool ≡ none)
unfolding paste_delete_if_one_use
burn_works db id p u s o =
    let row = one_use_row id db.pool p s o in
    let gone = select_row-delete_unique (has_id id) (has_id_one_use id) db.pool u in
    let same : has_id id p ≡ true = select_row-eq_some (has_id id) db.pool s in
    ground (arith, row, s, o, same, gone)

removal_works :
    (route : Route) (db : Db) (id : Text) (p : Paste)
    → burns route ≡ true
    → affected (has_id id) db.pool ≤ 1
    → select_row (has_id id) db.pool ≡ some p
    → p.one_use ≡ true
    → ((removal route none none db id p).1 ≡ served p)
      × (select_row (has_id id) (removal route none none db id p).0.pool ≡ none)
unfolding removal
removal_works api db id p b u s o = ground (arith, delete_works db id p s)
removal_works raw db id p b u s o = ground (arith, delete_works db id p s)
removal_works download db id p b u s o = ground (arith, delete_works db id p s)
removal_works hastebin db id p b u s o = ground (arith, delete_works db id p s)
removal_works (page true) db id p b u s o = ground (arith, burn_works db id p u s o)
removal_works (page false) db id p b u s o = cc
removal_works embedded db id p b u s o = cc

looked-burns :
    (route : Route) (p : Paste)
    → burns route ≡ true
    → p.one_use ≡ true
    → looked route (Storage.Result.ok p) ≡ found p
looked-burns api p b o = rw o refl
looked-burns raw p b o = rw o refl
looked-burns download p b o = rw o refl
looked-burns hastebin p b o = rw o refl
looked-burns (page true) p b o = rw o refl
looked-burns (page false) p b o = cc
looked-burns embedded p b o = cc

read_through-burns :
    (route : Route) (w : World) (db : Db) (id : Text) (p : Paste)
    → burns route ≡ true
    → Works w
    → affected (has_id id) db.pool ≤ 1
    → select_row (has_id id) db.pool ≡ some p
    → is_expired w.now p ≡ false
    → p.one_use ≡ true
    → read_through route w db id ≡ removal route none none db id p
unfolding read_through step
read_through-burns route w db id p b works u s x o = rw works.get₁ (
    rw works.get₂ (
      rw works.write₁
        (rw works.write₂ (rw (get_live w.now db id p s x) (rw (looked-burns route p b o) refl)))))

-- The seconds that the limits make the client wait.
abbrev pub waits : World → Server → Text → Option ℕ
waits w s client = (check_and_use_all s.limits client w.now5 w.now15 w.now60).1

id_given : (route : Route) (id : Text) → text_eq id [] ≡ false → is_missing route id ≡ false
id_given api id e = e
id_given hastebin id e = e
id_given raw id e = refl
id_given download id e = refl
id_given embedded id e = refl
id_given (page c) id e = refl

get_paste-allowed :
    (route : Route) (w : World) (s : Server) (client id : Text)
    → text_eq id [] ≡ false
    → waits w s client ≡ none
    → ((get_paste route w s client id).1 ≡ (read_through route w s.db id).1)
      × ((get_paste route w s client id).0.db ≡ (read_through route w s.db id).0)
unfolding get_paste after_limit
get_paste-allowed route w s client id e a = rw a (rw (id_given route id e) (refl, refl))

looked_missing :
    (route : Route) (w : World) (db : Db) (id : Text)
    → Works w
    → select_row (has_id id) db.pool ≡ none
    → (read_through route w db id).1 ≡ refused (storage Storage.not_found_id)
unfolding read_through step paste_get get_row
looked_missing route w db id works row = rw works.get₁ (rw works.get₂ (rw row refl))

-- A request with an id, whose address is within its limits, for a one-use paste that has not
-- expired, shows the paste and leaves none of its id behind, and a second request with the id, from
-- any address within its limits and by any route, is told that there is no such paste. The
-- statements of both run, no other request comes between, and the route of the first is not the
-- question of the page nor the embedded view.
pub get_paste-burns :
    (route again : Route) (w v : World) (s : Server) (client other id : Text) (p : Paste)
    → burns route ≡ true
    → Works w
    → Works v
    → waits w s client ≡ none
    → waits v (get_paste route w s client id).0 other ≡ none
    → text_eq id [] ≡ false
    → affected (has_id id) s.db.pool ≤ 1
    → select_row (has_id id) s.db.pool ≡ some p
    → is_expired w.now p ≡ false
    → p.one_use ≡ true
    → let (s', phase) = get_paste route w s client id in
      (phase ≡ served p)
      × (select_row (has_id id) s'.db.pool ≡ none)
      × ((get_paste again v s' other id).1 ≡ refused (storage Storage.not_found_id))
get_paste-burns route again w v s client other id p b works works' a a' e u row x o =
    let first = get_paste-allowed route w s client id e a in
    let burnt = read_through-burns route w s.db id p b works u row x o in
    let removed = removal_works route s.db id p b u row o in
    let s' = (get_paste route w s client id).0 in
    let gone : select_row (has_id id) s'.db.pool ≡ none = rw first.1 (rw burnt removed.1) in
    (
      first.0 ∙ ap (λ r. r.1) burnt ∙ removed.0,
      gone,
      (get_paste-allowed again v s' other id e a').0 ∙ looked_missing again v s'.db id works' gone,
    )
