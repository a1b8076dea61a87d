-- ===== src/Execution.antt =====
-- internal/app/runexecutor: the process pool, the registry of active runs, the submission of a run,
-- which uses both, and the fan-out of its events.
pub mod Pool
pub mod Runs
pub mod Submit
pub mod Lifecycle
pub mod Fanout
