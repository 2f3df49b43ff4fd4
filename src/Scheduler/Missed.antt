-- ===== src/Scheduler/Missed.antt =====
-- What the catch-up runs, and runs outside the schedule.
use caspaste.Prelude.{ℕ, ◌+◌, ◌<◌, ◌≡◌, ap, ◌∙◌, ltb, true, false, if◌then◌else◌, some, Text, arith}
use caspaste.Cron.Next.{Moment}
use caspaste.Cron.Parse.{panic}
use caspaste.Scheduler.Tasks.{Task, is_running, begin, Answer, finish, run_task}
use caspaste.Scheduler.Loop.{Scheduler, is_missed, run_catch_up, run_now, run_found}
use caspaste.Scheduler.Lookups.{begun, find, run_task_idle, select_row-run_all}

-- The scheduler has a task under the id that is enabled, that must not be skipped, that is not
-- running, and that has run before.
pub record Ran (id : Text) (t : Task) (s : Scheduler) : Type 0 where
  pub present : find id s ≡ some t
  pub on : t.enabled ≡ true
  pub kept : t.skippable ≡ false
  pub idle : is_running t.last_status ≡ false
  pub not_zero : 0 < t.last_run

module _ (moment : ℕ → Moment) where
  is_missed-Ran :
      (id : Text) (now : ℕ) (t : Task) (s : Scheduler)
      → Ran id t s
      → is_missed s.window now t ≡ ltb (t.last_run + s.window) now
  unfolding is_missed
  is_missed-Ran id now t s r = ground arith

  -- The catch-up runs an enabled task that must not be skipped, is not running and has run before
  -- exactly if its last run is longer ago than the window; the time of its next run plays no part.
  pub run_catch_up-finds :
      (id : Text) (now : ℕ) (answers : Text → Answer) (t : Task) (s : Scheduler)
      → Ran id t s
      → find id (run_catch_up moment now answers s)
        ≡ some (
            if ltb (t.last_run + s.window) now
            then finish moment (answers t.id).0 (answers t.id).1 (answers t.id).2 (begun t)
            else t)
  unfolding run_catch_up
  run_catch_up-finds id now answers t s r =
      select_row-run_all moment (is_missed s.window now) answers id s.tasks t r.present
      ∙ ap (λ b. some (if b then run_task moment (answers t.id) t else t))
          (is_missed-Ran id now t s r)
      ∙ ap (λ u. some (if ltb (t.last_run + s.window) now then u else t))
          (run_task_idle moment (answers t.id) t r.idle)

  -- A run outside the schedule of a task that is not running panics if the scheduler was never
  -- started.
  pub run_now_unstarted :
      (answers : Text → Answer) (id : Text) (t : Task) (s : Scheduler)
      → find id s ≡ some t
      → is_running t.last_status ≡ false
      → s.has_context ≡ false
      → run_now moment answers s id ≡ panic
  unfolding run_now begin
  run_now_unstarted answers id t s present idle never =
      ap (run_found moment answers s) present ∙ ground arith
