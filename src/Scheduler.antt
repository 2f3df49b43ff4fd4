-- ===== src/Scheduler.antt =====
-- src/scheduler/scheduler.go: the tasks, their runs, and the scheduler that starts them. Instants
-- are nanoseconds since the zero `time.Time`, which stands for no time.
pub mod Tasks
pub mod Loop
mod Runs
mod Lookups
mod Ticks
mod Missed
mod Tests
