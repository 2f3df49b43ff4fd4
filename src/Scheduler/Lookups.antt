-- ===== src/Scheduler/Lookups.antt =====
-- What becomes of one task when a list of them is run.
use caspaste.Prelude.{
  ℕ, ◌+◌, ◌≡◌, refl, Bool, false, if◌then◌else◌, Option, none, some, List, [], ◌∷◌, Text, arith,
}
use caspaste.Prelude.Table.{select_row}
use caspaste.Cron.Next.{Moment}
use caspaste.Scheduler.Tasks.{Task, running, is_running, begin, Answer, finish, next_of, run_task}
use caspaste.Scheduler.Loop.{Scheduler, has_id, run_all}

-- A task that is not running as `runTask` leaves it to its handler.
abbrev pub begun : Task → Task
begun t = record t { last_status = running }

-- The task of an id.
abbrev pub find : Text → Scheduler → Option Task
find id s = select_row (has_id id) s.tasks

module _ (moment : ℕ → Moment) where
  pub run_task_idle :
      (a : Answer) (t : Task)
      → is_running t.last_status ≡ false
      → run_task moment a t ≡ finish moment a.0 a.1 a.2 (begun t)
  unfolding run_task begin
  run_task_idle a t h = ground arith

  pub finish_fields :
      (a : Answer) (t : Task)
      → let t' = finish moment a.0 a.1 a.2 (begun t) in
        (t'.id ≡ t.id)
        × (t'.enabled ≡ t.enabled)
        × (is_running t'.last_status ≡ false)
        × (t'.cron_expr ≡ t.cron_expr)
        × (t'.next_run ≡ next_of moment t.cron_expr a.2)
        × (t'.run_count ≡ t.run_count + 1)
  unfolding finish
  finish_fields (none, now, now') t = (refl, refl, refl, refl, refl, refl)
  finish_fields (some e, now, now') t = (refl, refl, refl, refl, refl, refl)

  run_task-id : (a : Answer) (t : Task) → (run_task moment a t).id ≡ t.id
  unfolding run_task begin finish
  run_task-id (none, now, now') t = ground arith
  run_task-id (some e, now, now') t = ground arith

  pub select_row-run_all :
      (test : Task → Bool) (answers : Text → Answer) (id : Text) (ts : List Task) (t : Task)
      → select_row (has_id id) ts ≡ some t
      → select_row (has_id id) (run_all moment test answers ts)
        ≡ some (if test t then run_task moment (answers t.id) t else t)
  unfolding run_all select_row
  select_row-run_all test answers id [] t h = cc
  select_row-run_all test answers id (u ∷ ts) t h =
      ground (arith, run_task-id (answers u.id) u, select_row-run_all test answers id ts t)
