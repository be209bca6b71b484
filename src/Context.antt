-- ===== src/Context.antt =====
-- src/migration_engine/step_context.py: what one step hands to the next, and the target port through
-- which the upload and verification steps reach the target (src/ports/storionx_target_port.py).
use enterprise_vault_migrati.Prelude.{ℕ, String, Option, none, some, List, or_option, or_else}
use enterprise_vault_migrati.Errors.{Attempt}
use enterprise_vault_migrati.StateMachine.{MigrationState, StateMachine, advance}
use enterprise_vault_migrati.Contracts.{Metrics, ExecutionReport, ExecutionContext, ExecutionResult}
use enterprise_vault_migrati.Contracts.Source.{SourceVaultStore}
use enterprise_vault_migrati.Contracts.Documents.{
  ArchiveDiscoveryResult, ExtractionResult, TransformedDocument, TransformationResult, UploadResult,
  UploadBatchResult, VerificationResult,
}
use enterprise_vault_migrati.Checkpoint.{CheckpointSnapshot}
use enterprise_vault_migrati.Tracker.{ProgressTracker}

-- MigrationStepContext
pub record StepContext (F : Type 0) : Type 0 where
  pub execution_context : ExecutionContext F
  pub progress_tracker : Option (ProgressTracker F)
  pub state_machine : Option StateMachine
  pub execution_report : Option (ExecutionReport F)
  pub discovery_result : Option ArchiveDiscoveryResult
  pub vault_stores : Option (List SourceVaultStore)
  pub checkpoint : Option (CheckpointSnapshot F)
  pub extraction_result : Option ExtractionResult
  pub transformation_result : Option TransformationResult
  pub upload_result : Option UploadBatchResult
  pub verification_result : Option VerificationResult
  pub execution_result : Option (ExecutionResult F)

-- The methods of StorionXTargetPort that the engine calls, over a target with states `S`. An upload
-- answers with an UploadResult or, `none`, with some other object; its failures are exceptions.
pub record TargetPort (F S : Type 0) : Type 0 where
  pub upload_archived_file : String → TransformedDocument → S → Attempt F (Option UploadResult) × S
  pub get_uploaded_document : String → S → Option TransformedDocument
  pub finalize_job : String → S → S

module _ {F : Type 0} where
  -- `context.execution_context.metrics or (tracker.current_metrics if tracker is not None else None)`
  unfoldable pub known_metrics : StepContext F → Option (Metrics F)
  known_metrics c =
      or_option c.execution_context.metrics
        (elim c.progress_tracker [ none ↦ none | some t ↦ t.current_metrics ])

  -- `context.execution_report or (tracker.current_execution_report if … else None)`
  unfoldable pub known_report : StepContext F → Option (ExecutionReport F)
  known_report c =
      or_option c.execution_report
        (elim c.progress_tracker [ none ↦ none | some t ↦ t.current_execution_report ])

  -- `context.execution_context.current_timestamp or started_at`
  unfoldable pub completed_at : ExecutionContext F → ℕ
  completed_at c = or_else c.current_timestamp c.started_at

-- Each step's `_resolve_state`: the machine is moved where that is allowed, and the state is the
-- machine's, or the step's own where there is no machine.
unfoldable pub resolve_state : MigrationState → Option StateMachine → MigrationState
resolve_state s none = s
resolve_state s (some m) = (advance m s).current_state

unfoldable pub resolve_machine : MigrationState → Option StateMachine → Option StateMachine
resolve_machine s none = none
resolve_machine s (some m) = some (advance m s)
