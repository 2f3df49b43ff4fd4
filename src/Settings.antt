-- ===== src/Settings.antt =====
-- What is read from the command line and the environment: src/portutil/portutil.go,
-- src/cli/duration.go and src/mode/mode.go.
pub mod Decimals
pub mod Ports
pub mod Durations
mod Spans
pub mod Modes
mod Tests
