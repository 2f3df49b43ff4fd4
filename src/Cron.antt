-- ===== src/Cron.antt =====
-- src/scheduler/cron.go: cron expressions and the times that they name.
pub mod Parse
pub mod Next
mod Fields
mod Expressions
mod Steps
mod Stuck
mod Tests
