-- ===== src/Scheduler/Ticks.antt =====
-- The ticks of the scheduler run what is due.
use caspaste.Prelude.{
  ℕ, ◌+◌, ◌≤◌, ◌<◌, ◌≡◌, refl, ap, ◌∙◌, ltb, true, false, if◌then◌else◌, some, List, [], ◌∷◌, ◌++◌,
  Text, length, All, arith,
}
use caspaste.Prelude.Int.{pos}
use caspaste.Cron.Parse.{every}
use caspaste.Cron.Next.{Moment, next}
use caspaste.Scheduler.Tasks.{Task, is_running, Answer, finish, run_task}
use caspaste.Scheduler.Loop.{Scheduler, is_due, check_and_run_tasks}
use caspaste.Scheduler.Lookups.{begun, find, run_task_idle, finish_fields, select_row-run_all}

-- A tick at a time, with what becomes of the run of each task.
abbrev pub Tick : Type 0
Tick = ℕ × (Text → Answer)

-- The scheduler has the task under the id, enabled and not running, to be run after `n`.
pub record Waits (id : Text) (n : ℕ) (t : Task) (s : Scheduler) : Type 0 where
  pub present : find id s ≡ some t
  pub named : t.id ≡ id
  pub on : t.enabled ≡ true
  pub idle : is_running t.last_status ≡ false
  pub set : t.next_run ≡ pos n
  pub not_zero : 0 < n

module _ (moment : ℕ → Moment) where
  unfoldable pub ticks : List Tick → Scheduler → Scheduler
  ticks [] s = s
  ticks ((now, answers) ∷ rest) s = ticks rest (check_and_run_tasks moment now answers s)

  is_due-Waits :
      (id : Text) (n now : ℕ) (t : Task) (s : Scheduler) → Waits id n t s → is_due now t ≡ ltb n now
  unfolding is_due
  is_due-Waits id n now t s w = ground arith

  ticked :
      (id : Text) (n now : ℕ) (answers : Text → Answer) (t : Task) (s : Scheduler)
      → Waits id n t s
      → find id (check_and_run_tasks moment now answers s)
        ≡ some (if ltb n now then run_task moment (answers id) t else t)
  unfolding check_and_run_tasks
  ticked id n now answers t s w =
      select_row-run_all moment (is_due now) answers id s.tasks t w.present
      ∙ ap (λ b. some (if b then run_task moment (answers t.id) t else t))
          (is_due-Waits id n now t s w)
      ∙ ap (λ i. some (if ltb n now then run_task moment (answers i) t else t)) w.named

  early :
      (id : Text) (n now : ℕ) (answers : Text → Answer) (t : Task) (s : Scheduler)
      → Waits id n t s
      → now ≤ n
      → Waits id n t (check_and_run_tasks moment now answers s)
  early id n now answers t s w h = record {
    present = ticked id n now answers t s w ∙ ground arith;
    named = w.named;
    on = w.on;
    idle = w.idle;
    set = w.set;
    not_zero = w.not_zero;
  }

  -- The task after a run.
  abbrev pub run_of : Answer → Task → Task
  run_of a t = finish moment a.0 a.1 a.2 (begun t)

  due :
      (id : Text) (n now : ℕ) (answers : Text → Answer) (t : Task) (s : Scheduler)
      → Waits id n t s
      → n < now
      → find id (check_and_run_tasks moment now answers s) ≡ some (run_of (answers id) t)
  due id n now answers t s w h =
      ticked id n now answers t s w ∙ ground (arith, run_task_idle moment (answers id) t)

  -- A task that is enabled and not running is left alone by the ticks up to its next run, and is run
  -- by the first tick after it.
  pub ticks-runs :
      (before : List Tick) (now : ℕ) (answers : Text → Answer) (id : Text) (n : ℕ) (t : Task)
      (s : Scheduler)
      → Waits id n t s
      → All (λ tick. tick.0 ≤ n) before
      → n < now
      → (find id (ticks before s) ≡ some t)
        × (find id (ticks (before ++ (now, answers) ∷ []) s) ≡ some (run_of (answers id) t))
  unfolding ticks
  ticks-runs [] now answers id n t s w h l = (w.present, due id n now answers t s w l)
  ticks-runs ((m, other) ∷ before) now answers id n t s w h l =
      ticks-runs before now answers id n t (check_and_run_tasks moment m other s)
        (early id n m other t s w h.0) h.1 l

  -- Each tick comes after the time that the run before it has set.
  abbrev pub Spaced : Text → ℕ → ℕ → List Tick → Type 0
  Spaced id d n [] = Unit {0}
  Spaced id d n ((now, answers) ∷ rest) = (n < now) × Spaced id d ((answers id).2 + d) rest

  again :
      (id : Text) (d n now : ℕ) (answers : Text → Answer) (t : Task) (s : Scheduler)
      → Waits id n t s
      → t.cron_expr ≡ some (every (pos d))
      → 0 < d
      → n < now
      → Waits id
          ((answers id).2 + d)
          (run_of (answers id) t)
          (check_and_run_tasks moment now answers s)
  unfolding next
  again id d n now answers t s w e p h =
      let (same_id, same_on, idle, same_cron, set, counted) = finish_fields moment (answers id) t in
      record {
        present = due id n now answers t s w h;
        named = same_id ∙ w.named;
        on = same_on ∙ w.on;
        idle = idle;
        set = set ∙ rw e refl;
        not_zero = omega arith;
      }

  -- A task with an `@every` schedule that is enabled and not running is run again by every tick, as
  -- long as each comes later than the period after the run before it: its count of runs grows by one
  -- with each tick.
  pub ticks-every :
      (rest : List Tick) (id : Text) (d n : ℕ) (t : Task) (s : Scheduler)
      → Waits id n t s
      → t.cron_expr ≡ some (every (pos d))
      → 0 < d
      → Spaced id d n rest
      → (t' : Task) × (find id (ticks rest s) ≡ some t')
        × (t'.run_count ≡ t.run_count + length rest)
  unfolding ticks
  ticks-every [] id d n t s w e p h = (t, w.present, omega arith)
  ticks-every ((now, answers) ∷ rest) id d n t s w e p h =
      let (same_id, same_on, idle, same_cron, set, counted) = finish_fields moment (answers id) t in
      let (t', present, count) =
        ticks-every rest id d ((answers id).2 + d) (run_of (answers id) t)
          (check_and_run_tasks moment now answers s) (again id d n now answers t s w e p h.0)
          (same_cron ∙ e) p h.1 in
      (t', present, omega arith)
