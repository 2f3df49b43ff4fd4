-- ===== src/Scheduler/Runs.antt =====
-- Callers that start a task at the same time: its handler runs once at a time.
use caspaste.Prelude.{ℕ, zero, suc, ◌+◌, ◌≤◌, ◌≡◌, if◌then◌else◌, none, some, List, [], ◌∷◌, arith}
use caspaste.Cron.Next.{Moment}
use caspaste.Scheduler.Tasks.{Task, is_running, begin, Outcome, finish}

-- A caller reaches `runTask`, or a handler that runs returns.
pub data Event : Type 0 where
  attempt : Event
  returned : Outcome → ℕ → ℕ → Event

-- A task, and how many of its handlers run.
pub record Running : Type 0 where
  pub task : Task
  pub handlers : ℕ

-- Every run that has ended, and of which some failed, is counted; a handler runs only while the
-- status says so, and no two run.
pub record IsExclusive (s : Running) : Type 0 where
  pub one : s.handlers ≤ 1
  pub shown : s.handlers ≡ (if is_running s.task.last_status then 1 else 0)
  pub failures : s.task.fail_count ≤ s.task.run_count

module _ (moment : ℕ → Moment) where
  abbrev on_return : ℕ → Outcome → ℕ → ℕ → Task → Running
  on_return zero outcome now now' t = record { task = t; handlers = 0 }
  on_return (suc n) outcome now now' t = record {
    task = finish moment outcome now now' t;
    handlers = n;
  }

  unfoldable pub step : Event → Running → Running
  step attempt s = elim (begin s.task) [
    | none ↦ s
    | some t ↦ record { task = t; handlers = s.handlers + 1 }
  ]
  step (returned outcome now now') s = on_return s.handlers outcome now now' s.task

  unfoldable pub steps : List Event → Running → Running
  unfolding step
  steps [] s = s
  steps (e ∷ es) s = steps es (step e s)

  step-IsExclusive : (e : Event) (s : Running) → IsExclusive s → IsExclusive (step e s)
  unfolding step begin finish
  step-IsExclusive attempt s h = ground arith
  step-IsExclusive (returned none now now') s h = ground arith
  step-IsExclusive (returned (some m) now now') s h = ground arith

  -- However callers of `runTask` and returns of handlers follow one another, no two handlers of a
  -- task run at a time, its status is running exactly while one does, and at most as many runs have
  -- failed as have ended; all this holds from any state in which it holds.
  pub steps-IsExclusive : (es : List Event) (s : Running) → IsExclusive s → IsExclusive (steps es s)
  unfolding steps
  steps-IsExclusive [] s h = h
  steps-IsExclusive (e ∷ es) s h = steps-IsExclusive es (step e s) (step-IsExclusive e s h)
