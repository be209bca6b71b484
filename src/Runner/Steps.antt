-- ===== src/Runner/Steps.antt =====
-- The loop over the steps in `run` of src/migration_engine/runner/pipeline_runner.py, with rollback,
-- failure and completion. What a step does (`prepare` and its execution, its `finalize`, its
-- `rollback`) is an argument, since the steps are parts of their own.
use enterprise_vault_migrati.Prelude.{
  ℕ, String, Option, none, some, List, [], ◌∷◌, reverse, if◌then◌else◌, or_option, str_eq,
}
use Prim.Native.String.{◌++◌ as ◌+s◌}
use enterprise_vault_migrati.Errors.{ok, err, Attempt, plain, runtime_error}
use enterprise_vault_migrati.StateMachine.{MigrationState, StateMachine}
use enterprise_vault_migrati.Contracts.{Metrics, ExecutionReport, ExecutionContext}
use enterprise_vault_migrati.Context.{StepContext}
use enterprise_vault_migrati.Tracker
use enterprise_vault_migrati.Tracker.{ProgressTracker}

-- _step_state
unfoldable pub step_state : String → Option MigrationState
step_state s =
    if str_eq s "DiscoverArchivesStep"
    then some MigrationState.discovering
    else if str_eq s "ExtractItemsStep"
    then some MigrationState.extracting
    else if str_eq s "TransformItemsStep"
    then some MigrationState.transforming
    else if str_eq s "UploadItemsStep"
    then some MigrationState.uploading
    else if str_eq s "VerifyItemsStep"
    then some MigrationState.verifying
    else if str_eq s "FinalizeMigrationStep"
    then some MigrationState.finalizing
    else none

-- What the runner and the steps mutate: the state machine, the tracker and the rest of the world.
pub record Shared (F S : Type 0) : Type 0 where
  pub machine : StateMachine
  pub tracker : Option (ProgressTracker F)
  pub world : S

-- The runner's variables, `current_step_context` with the `current_context` in it, and the context of
-- the last attempt.
pub record Live (F S : Type 0) : Type 0 where
  pub shared : Shared F S
  pub context : StepContext F
  pub attempt_context : ExecutionContext F
  pub successful_steps : ℕ
  pub failed_steps : ℕ
  pub skipped_steps : ℕ

-- What a step gives: a new step context, or, from a step without one, only its report.
pub data Yield (F : Type 0) : Type 0 where
  in_context : StepContext F → Yield F
  only_report : ExecutionReport F → Yield F

-- A step as the runner uses it: `prepare` and the execution, then `finalize`, and `rollback`.
pub record Step (F S : Type 0) : Type 0 where
  pub name : String
  pub execute : StepContext F → Shared F S → Attempt F (Yield F) × Shared F S
  pub finalize : ExecutionContext F → Shared F S → Attempt F (Unit {0}) × Shared F S
  pub rollback : ExecutionContext F → Shared F S → Attempt F (Unit {0}) × Shared F S

module _ {F : Type 0} where
  -- _advance_context
  unfoldable pub advance_context :
      ExecutionContext F
      → Option String
      → MigrationState
      → ℕ
      → Option (Metrics F)
      → ExecutionContext F
  advance_context c step state timestamp metrics = record c {
    current_step = step;
    metrics = metrics;
    state = some state;
    current_timestamp = some timestamp;
  }

  -- _sync_tracker, where there is a tracker
  unfoldable pub sync_tracker :
      {S : Type 0}
      → ExecutionContext F
      → ℕ
      → Metrics F
      → ExecutionReport F
      → Shared F S
      → Shared F S
  unfolding Tracker.publish
  sync_tracker c timestamp m r s = elim s.tracker [
    | none ↦ s
    | some t ↦
        let c' = record c { metrics = some m; current_timestamp = some timestamp } in
        let snapshot = record t.current_snapshot {
          total_items = m.total_items;
          processed_items = m.processed_items;
          successful_items = m.successful_items;
          failed_items = m.failed_items;
          skipped_items = m.skipped_items;
          last_updated = timestamp;
        } in
        record s { tracker = some (Tracker.publish c' r m snapshot s.machine.current_state t) }
  ]

  -- _sync_retry_state; `c` is the context of the attempt that failed
  unfoldable pub sync_retry_state :
      {S : Type 0} → ExecutionContext F → ℕ → Option (Metrics F) → Shared F S → Shared F S
  sync_retry_state c timestamp m s = elim s.tracker [
    | none ↦ s
    | some t ↦
        let c' = record c { metrics = m; current_timestamp = some timestamp } in
        record s {
          tracker = some (record t {
            current_snapshot = record t.current_snapshot { last_updated = timestamp };
            current_execution_context = some c';
            current_metrics = m;
            current_migration_state = some s.machine.current_state;
          });
        }
  ]

  -- the report that a yield carries, and the metrics that it brings
  unfoldable pub yielded_report : String → Yield F → Attempt F (ExecutionReport F)
  yielded_report name (only_report r) = ok r
  yielded_report name (in_context c) = elim c.execution_report [
    | none ↦ err (plain runtime_error (name +s " did not produce an execution report"))
    | some r ↦ ok r
  ]

  unfoldable pub yielded_metrics : Yield F → Option (Metrics F)
  yielded_metrics (only_report r) = r.metrics
  yielded_metrics (in_context c) = elim c.execution_report [
    | none ↦ none
    | some r ↦ or_option c.execution_context.metrics r.metrics
  ]

  unfoldable pub yielded_context : Yield F → StepContext F → StepContext F
  yielded_context (only_report r) c = c
  yielded_context (in_context c') c = c'

  -- the context with which a step is left, as the runner keeps it
  unfoldable pub kept :
      {S : Type 0}
      → StepContext F
      → ExecutionContext F
      → Shared F S
      → Option (ExecutionReport F)
      → StepContext F
  kept c e s report = record c {
    execution_context = e;
    progress_tracker = or_option s.tracker c.progress_tracker;
    state_machine = some s.machine;
    execution_report = report;
  }

module _ {F S : Type 0} where
  -- _rollback_steps; an exception is passed over
  unfoldable pub rollback_all : ExecutionContext F → List (Step F S) → Shared F S → Shared F S
  rollback_all c [] s = s
  rollback_all c (step ∷ steps) s = rollback_all c steps (step.rollback c s).1

  unfoldable pub rollback_steps :
      List (Step F S) → Step F S → ExecutionContext F → Shared F S → Shared F S
  unfolding rollback_all
  rollback_steps completed current c s = rollback_all c (current ∷ reverse completed) s
