-- ===== src/Lib.antt =====
-- Verification of the migration engine: archives of Enterprise Vault are read, transformed and uploaded
-- to storionX by a pipeline of steps with checkpoints and retries (migration_engine, with
-- its ports, its adapters and the mock target mock_storionx, all below src of the repository).
--
-- The parts and their files:
-- - Prelude, Dict, Errors: shared lemmas; a Python dictionary as an association list in insertion
--   order; exceptions as values. A float, a rendering, a UUID of a name and a hash are taken from a
--   record Runtime, the argument of what uses them; what the theorems need of floats are the laws
--   FloatLaws and TimeLaws. Times are whole microseconds, and all are of one kind: the TypeError that
--   comparing a naive with an aware datetime raises is not modelled. Counts are natural numbers, but
--   for the attempt count of an error entry. A power may overflow, and a text may have no encoding.
-- - StateMachine: src/migration_engine/state_machine.py.
-- - Contracts: the immutable records of src/migration_engine (contracts, metrics, configuration,
--   results). The shared tracker and state machine are no fields: they are threaded.
-- - Checkpoint, Retry: the snapshot, the retry policy and the in-memory repositories.
-- - Target: the mock storionX subsystem and the adapter src/adapters/target. A method under a lock is
--   one step on the state; the clock, fresh UUIDs and injected failures are read from a Reading.
-- - Tracker, Context: src/migration_engine/progress_tracker.py and step_context.py, with the port
--   through which the steps reach the target.
-- - Rehydration: src/migration_engine/rehydration. A declared size may be negative.
-- - Source: src/adapters/source/mock_enterprise_vault_source_adapter.py, the adapter that a run reads the
--   archives through.
-- - Discover: src/migration_engine/steps/discover_archives_step.py. The stores of the step's
--   constructor and those that its generator makes are arguments, here and in the next two steps.
-- - Extract: src/migration_engine/steps/extract_items_step.py. The paths of folders are lists of code
--   points (Paths, Filters), the loops over stores, archives, mailboxes and journals are in Loops.
-- - Transform: src/migration_engine/steps/transform_items_step.py. The rehydrator, which the loop
--   mutates, is part of what the step returns; where an exception leaves the step, it is not kept.
-- - Upload: src/migration_engine/steps/upload_items_step.py. The order in which the workers of the pool
--   call the target is the argument `schedule`, of which nothing is assumed. Processing sends the
--   documents, Emission builds the batch, Finishing the context that is left.
-- - Verify: src/migration_engine/steps/verify_items_step.py, over a target that it only reads.
-- - Reporting: src/migration_engine/reporting/report_summary.py and error_breakdown.py, and in Csv
--   csv_report_exporter.py with the writer of Python's csv module. The characters that make that
--   writer quote a cell differ by its version; those beyond comma, quote and newline are an argument.
--   Formatter is report_formatter.py, over the values of Json; Import and Recovery read them again.
-- - Finalize: src/migration_engine/steps/finalize_migration_step.py.
-- - Runner: src/migration_engine/runner and src/application/use_cases/resume_migration.py. The loop over
--   the attempts of a step has as fuel the number of attempts that the retry policy allows, and one
--   more; that it is enough is a theorem. Steps and Loop have the loop over the steps, Results what a run
--   returns. There the steps are records of their operations, since what each does is a part of its
--   own, and the clock is read by the step and the attempt. Initial has the start of a run, Replay the
--   resumption from a checkpoint, where what the upload step does instead is an argument, which
--   Reconstruct fills by its reconstruct_upload, and Whole the method run; a retry repository and a
--   sleeper are there or not, and what they raise leaves the run; DryRun is src/application/use_cases/dry_run.py.
-- - Examples: the theorems at concrete inputs.
--
-- Not modelled: the text that json.dumps makes of an exported report, the mock Enterprise Vault with its
-- generators, logging and the command line.
pub mod Prelude
pub mod Dict
pub mod Runtime
pub mod Errors
pub mod Source
pub mod StateMachine
pub mod Contracts
pub mod Checkpoint
pub mod Retry
pub mod Target
pub mod Tracker
pub mod Context
pub mod Rehydration
pub mod Discover
pub mod Extract
pub mod Transform
pub mod Upload
pub mod Verify
pub mod Reporting
pub mod Finalize
pub mod Runner
pub mod Examples
