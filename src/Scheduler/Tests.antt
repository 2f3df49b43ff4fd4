-- ===== src/Scheduler/Tests.antt =====
-- Schedulers with one task.
use caspaste.Prelude.{
  ℕ, ◌+◌, ◌≡◌, refl, true, false, Option, none, some, [], ◌∷◌, Text, text_eq, codes, arith,
}
use caspaste.Prelude.Int.{ℤ, pos}
use caspaste.Prelude.Table.{select_row}
use caspaste.Cron.Parse.{every, err, panic}
use caspaste.Cron.Next.{Moment}
use caspaste.Scheduler.Tasks.{Task, unset, finish}
use caspaste.Scheduler.Loop.{
  Scheduler, add_task, run_now, stop, run_catch_up, not_running, id_required,
}
use caspaste.Scheduler.Lookups.{begun, find}
use caspaste.Scheduler.Runs.{attempt, returned, IsExclusive, steps, steps-IsExclusive}
use caspaste.Scheduler.Ticks.{Tick, Waits, ticks, run_of, ticks-runs, ticks-every}
use caspaste.Scheduler.Missed.{Ran, run_catch_up-finds, run_now_unstarted}

abbrev calendar : ℕ → Moment
calendar t = record { minute = 0; hour = 0; day = 1; month = 1; weekday = 0 }

abbrev job : Text
job = codes "backup"

abbrev task : Task
task = record {
  id = job;
  enabled = true;
  skippable = false;
  last_run = 50;
  next_run = pos 100;
  last_status = unset;
  last_error = [];
  run_count = 0;
  fail_count = 0;
  cron_expr = some (every (pos 30));
}

abbrev scheduler : Scheduler
scheduler = record { tasks = task ∷ []; running = false; has_context = false; window = 10 }

-- Runs that end 5 after a tick.
abbrev fine : ℕ → Tick
fine now = (now, λ id. (none, now + 5, now + 5))

waits : Waits job 100 task scheduler
unfolding select_row text_eq
waits = record {
  present = refl;
  named = refl;
  on = refl;
  idle = refl;
  set = refl;
  not_zero = omega arith;
}

ran : Ran job task scheduler
unfolding select_row text_eq
ran = record { present = refl; on = refl; kept = refl; idle = refl; not_zero = omega arith }

steps-IsExclusive_example : IsExclusive (
    steps calendar
      (attempt ∷ attempt ∷ returned none 5 5 ∷ attempt ∷ [])
      (record { task = task; handlers = 0 }))
steps-IsExclusive_example =
    steps-IsExclusive calendar (attempt ∷ attempt ∷ returned none 5 5 ∷ attempt ∷ [])
      (record { task = task; handlers = 0 })
      (record { one = omega arith; shown = refl; failures = omega arith })

ticks-runs_example :
    (find job (ticks calendar (fine 99 ∷ fine 100 ∷ []) scheduler) ≡ some task)
    × (find job (ticks calendar (fine 99 ∷ fine 100 ∷ fine 101 ∷ []) scheduler)
        ≡ some (run_of calendar (none, 106, 106) task))
ticks-runs_example =
    ticks-runs calendar (fine 99 ∷ fine 100 ∷ []) 101 (fine 101).1 job 100 task scheduler waits
      (omega arith) (omega arith)

ticks-every_run :
    (t : Task) × (find job (ticks calendar (fine 101 ∷ fine 140 ∷ []) scheduler) ≡ some t)
    × (t.run_count ≡ 2)
ticks-every_run =
    ticks-every calendar (fine 101 ∷ fine 140 ∷ []) job 30 100 task scheduler waits refl
      (omega arith) (omega arith)

-- The task is run although it is not due before 100.
run_catch_up-finds_run :
    find job (run_catch_up calendar 61 (fine 61).1 scheduler)
    ≡ some (finish calendar none 66 66 (begun task))
run_catch_up-finds_run = run_catch_up-finds calendar job 61 (fine 61).1 task scheduler ran

run_now_unstarted_run : run_now calendar (fine 1).1 scheduler job ≡ panic
run_now_unstarted_run =
    run_now_unstarted calendar (fine 1).1 job task scheduler waits.present refl refl

no_durations : Text → Option ℤ
no_durations t = none

nameless :
    add_task calendar no_durations 60 0 true (codes "@daily") (record task { id = [] }) scheduler
    ≡ err id_required
unfolding add_task text_eq
nameless = refl

not_started : stop calendar scheduler ≡ err not_running
unfolding stop
not_started = refl
