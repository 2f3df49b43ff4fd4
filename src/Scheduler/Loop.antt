-- ===== src/Scheduler/Loop.antt =====
-- The scheduler: its table of tasks, its start and stop, its ticks, and what it catches up.
use caspaste.Prelude.{
  ℕ, ◌+◌, ltb, ◌==◌, ◌&&◌, not, Bool, true, false, if◌then◌else◌, Option, none, some, List, [], ◌∷◌,
  ◌++◌, Text, text_eq,
}
use caspaste.Prelude.Int.{ℤ, pos, negsuc, ltz}
use caspaste.Prelude.Table.{affected, delete, select_row, update}
use caspaste.Cron.Parse.{CronExpr, Run, ok, err, panic, out_of_fuel, parse_cron}
use caspaste.Cron.Parse
use caspaste.Cron.Next.{Moment, next}
use caspaste.Scheduler.Tasks.{Task, begin, Answer, run_task}

pub data Error : Type 0 where
  id_required handler_required task_not_found already_running not_running : Error
  invalid_schedule : Parse.Error → Error

-- The tasks stand in the order in which the map is ranged over. `has_context` says that `ctx` is not
-- nil, and `window` is the catch-up window.
pub record Scheduler : Type 0 where
  pub tasks : List Task
  pub running : Bool
  pub has_context : Bool
  pub window : ℕ

-- `New`.
pub new : ℕ → Scheduler
new window = record { tasks = []; running = false; has_context = false; window = window }

abbrev pub has_id : Text → Task → Bool
has_id id t = text_eq t.id id

-- `s.tasks[task.ID] = task`.
abbrev pub put_task : Task → Scheduler → Scheduler
put_task t s = record s { tasks = delete (has_id t.id) s.tasks ++ t ∷ [] }

unfoldable pub remove_task : Scheduler → Text → Run Error Scheduler
remove_task s id =
    if affected (has_id id) s.tasks == 0
    then err task_not_found
    else ok (record s { tasks = delete (has_id id) s.tasks })

abbrev pub is_zero : ℤ → Bool
is_zero (pos n) = n == 0
is_zero (negsuc n) = false

-- Which tasks `checkAndRunTasks` runs.
unfoldable pub is_due : ℕ → Task → Bool
is_due now t = t.enabled && not (is_zero t.next_run) && ltz t.next_run (pos now)

-- Which tasks `runCatchUp` runs.
unfoldable pub is_missed : ℕ → ℕ → Task → Bool
is_missed window now t =
    t.enabled && not (t.last_run == 0) && ltb (t.last_run + window) now && not t.skippable

module _ (moment : ℕ → Moment) where
  -- The tasks of a list that pass a test are run, one after the other, with an answer for each.
  unfoldable pub run_all : (Task → Bool) → (Text → Answer) → List Task → List Task
  run_all test answers [] = []
  run_all test answers (t ∷ ts) =
      (if test t then run_task moment (answers t.id) t else t) ∷ run_all test answers ts

  unfoldable pub check_and_run_tasks : ℕ → (Text → Answer) → Scheduler → Scheduler
  unfolding run_all
  check_and_run_tasks now answers s = record s { tasks = run_all (is_due now) answers s.tasks }

  unfoldable pub run_catch_up : ℕ → (Text → Answer) → Scheduler → Scheduler
  unfolding run_all
  run_catch_up now answers s = record s { tasks = run_all (is_missed s.window now) answers s.tasks }

  -- `Start`, up to the loop of ticks.
  unfoldable pub start : ℕ → (Text → Answer) → Scheduler → Run Error Scheduler
  unfolding run_catch_up
  start now answers s =
      if s.running
      then err already_running
      else ok (run_catch_up now answers (record s { running = true; has_context = true }))

  unfoldable pub stop : Scheduler → Run Error Scheduler
  stop s = if s.running then ok (record s { running = false }) else err not_running

  -- A run outside the schedule. `context.WithTimeout` panics on a nil parent.
  unfoldable pub run_found : (Text → Answer) → Scheduler → Option Task → Run Error Scheduler
  run_found answers s none = err task_not_found
  run_found answers s (some t) = elim (begin t) [
    | none ↦ ok s
    | some t' ↦
        if s.has_context
        then ok (record s { tasks = update (run_task moment (answers t.id)) (has_id t.id) s.tasks })
        else panic
  ]

  unfoldable pub run_now : (Text → Answer) → Scheduler → Text → Run Error Scheduler
  unfolding run_found
  run_now answers s id = run_found answers s (select_row (has_id id) s.tasks)

  module _ (parse_duration : Text → Option ℤ) where
    scheduled : ℕ → Task → Scheduler → Run Parse.Error CronExpr → Run Error Scheduler
    scheduled now t s (ok c) =
        ok (put_task (record t { cron_expr = some c; next_run = next moment c now }) s)
    scheduled now t s (err e) = err (invalid_schedule e)
    scheduled now t s panic = panic
    scheduled now t s out_of_fuel = out_of_fuel

    with_schedule : ℕ → ℕ → Text → Task → Scheduler → Run Error Scheduler
    unfolding scheduled
    with_schedule fuel now [] t s = ok (put_task t s)
    with_schedule fuel now (c ∷ text) t s =
        scheduled now t s (parse_cron parse_duration fuel (c ∷ text))

    -- The schedule is the text of the task's field, and `has_handler` says that its handler is not
    -- nil. The fuel is that of `parse_cron`.
    unfoldable pub add_task : ℕ → ℕ → Bool → Text → Task → Scheduler → Run Error Scheduler
    unfolding with_schedule
    add_task fuel now has_handler schedule t s =
        if text_eq t.id []
        then err id_required
        else if not has_handler
        then err handler_required
        else with_schedule fuel now schedule t s
