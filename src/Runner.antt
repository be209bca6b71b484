-- ===== src/Runner.antt =====
-- src/migration_engine/runner: the step registry, the retry bookkeeping and the checkpoints of the
-- pipeline runner, and the checks of src/application/use_cases/resume_migration.py.
pub mod Registry
pub mod Ordering
pub mod Checkpoints
pub mod Restore
pub mod Steps
pub mod Initial
pub mod Ready
pub mod Loop
pub mod Replay
pub mod Results
pub mod Whole
pub mod States
pub mod Repeats
pub mod Reconstruct
pub mod Recovery
pub mod DryRun
pub mod Course
pub mod Verdicts
pub mod Retries
pub mod Decisions
pub mod Bookkeeping
pub mod Counters
pub mod Resume
pub mod Admission
