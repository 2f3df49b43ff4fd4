-- ===== src/Scheduler/Tasks.antt =====
-- A task, and the two halves of `runTask`, between which its handler runs.
use caspaste.Prelude.{ℕ, ◌+◌, Bool, true, false, if◌then◌else◌, Option, none, some, [], Text}
use caspaste.Prelude.Int.{ℤ, pos}
use caspaste.Cron.Parse.{CronExpr}
use caspaste.Cron.Next.{Moment, next}

pub data TaskStatus : Type 0 where
  unset pending running complete failed skipped : TaskStatus

-- The handler is not a field: what a run of it came to is an argument.
pub record Task : Type 0 where
  pub id : Text
  pub enabled : Bool
  pub skippable : Bool
  pub last_run : ℕ
  pub next_run : ℤ
  pub last_status : TaskStatus
  pub last_error : Text
  pub run_count : ℕ
  pub fail_count : ℕ
  pub cron_expr : Option CronExpr

abbrev pub is_running : TaskStatus → Bool
is_running running = true
is_running _ = false

-- Up to the call of the handler: `none` where the task is running already.
unfoldable pub begin : Task → Option Task
begin t = if is_running t.last_status then none else some (record t { last_status = running })

-- What the handler returned: `none`, or the message of its error.
abbrev pub Outcome : Type 0
Outcome = Option Text

-- What became of a run: what its handler returned, and the two readings of the clock after it.
abbrev pub Answer : Type 0
Answer = Outcome × ℕ × ℕ

abbrev noted : Outcome → Task → Task
noted none t = record t { last_status = complete; last_error = [] }
noted (some e) t = record t { last_status = failed; last_error = e; fail_count = t.fail_count + 1 }

module _ (moment : ℕ → Moment) where
  abbrev pub next_of : Option CronExpr → ℕ → ℤ
  next_of none now = pos 0
  next_of (some c) now = next moment c now

  -- From the return of the handler on; the clock is read twice. The counters are `int64`, and are not
  -- bounded here.
  unfoldable pub finish : Outcome → ℕ → ℕ → Task → Task
  finish outcome now now' t =
      record (noted outcome (record t { last_run = now; run_count = t.run_count + 1 })) {
        next_run = next_of t.cron_expr now';
      }

  -- `runTask`, where nothing else touches the task meanwhile.
  unfoldable pub run_task : Answer → Task → Task
  unfolding begin finish
  run_task (outcome, now, now') t = elim (begin t) [
    | none ↦ t
    | some t' ↦ finish outcome now now' t'
  ]
