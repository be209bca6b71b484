-- ===== src/Tracker.antt =====
-- src/migration_engine/progress_tracker.py: the mutable object that a run shares between the runner
-- and the steps. Each method returns the new tracker.
use enterprise_vault_migrati.Prelude.{Option, none, some}
use enterprise_vault_migrati.StateMachine.{MigrationState}
use enterprise_vault_migrati.Contracts.{
  Metrics, ProgressSnapshot, ExecutionReport, ExecutionContext,
}

pub record ProgressTracker (F : Type 0) : Type 0 where
  pub initial_snapshot : ProgressSnapshot
  pub current_snapshot : ProgressSnapshot
  pub current_metrics : Option (Metrics F)
  pub current_execution_context : Option (ExecutionContext F)
  pub current_execution_report : Option (ExecutionReport F)
  pub current_migration_state : Option MigrationState

module _ {F : Type 0} where
  -- ProgressTracker(snapshot=…, metrics=…, execution_context=…, execution_report=…, migration_state=…)
  unfoldable pub new_tracker :
      ProgressSnapshot
      → Option (Metrics F)
      → Option (ExecutionContext F)
      → Option (ExecutionReport F)
      → Option MigrationState
      → ProgressTracker F
  new_tracker s m c r st = record {
    initial_snapshot = s;
    current_snapshot = s;
    current_metrics = m;
    current_execution_context = c;
    current_execution_report = r;
    current_migration_state = st;
  }

  unfoldable pub update_snapshot : ProgressSnapshot → ProgressTracker F → ProgressTracker F
  update_snapshot s t = record t { current_snapshot = s }

  unfoldable pub update_metrics : Metrics F → ProgressTracker F → ProgressTracker F
  update_metrics m t = record t { current_metrics = some m }

  unfoldable pub update_execution_context :
      ExecutionContext F → ProgressTracker F → ProgressTracker F
  update_execution_context c t = record t { current_execution_context = some c }

  unfoldable pub update_execution_report : ExecutionReport F → ProgressTracker F → ProgressTracker F
  update_execution_report r t = record t { current_execution_report = some r }

  unfoldable pub update_migration_state : MigrationState → ProgressTracker F → ProgressTracker F
  update_migration_state s t = record t { current_migration_state = some s }

  unfoldable pub reset : ProgressTracker F → ProgressTracker F
  reset t = record t {
    current_snapshot = t.initial_snapshot;
    current_metrics = none;
    current_execution_context = none;
    current_execution_report = none;
    current_migration_state = none;
  }

  -- The five updates with which a step publishes its outcome.
  unfoldable pub publish :
      ExecutionContext F
      → ExecutionReport F
      → Metrics F
      → ProgressSnapshot
      → MigrationState
      → ProgressTracker F
      → ProgressTracker F
  unfolding update_snapshot update_metrics update_execution_context update_execution_report
      update_migration_state
  publish c r m s st t = update_migration_state st (
      update_snapshot s
        (update_metrics m (update_execution_report r (update_execution_context c t))))
