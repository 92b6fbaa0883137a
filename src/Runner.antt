-- ===== src/Runner.antt =====
-- The runner of a test: cmd/gvtest/handlers.go, which turns the blocks of a script into specifications,
-- and the commands and the executor of pkg/vtc.
pub mod Specs
pub mod Quoting
pub mod Blocks
pub mod Streams
pub mod Executor
pub mod Exits
pub mod Builtins
pub mod Checks
pub mod Outcomes
