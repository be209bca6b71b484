-- ===== src/Finalize.antt =====
-- src/migration_engine/steps/finalize_migration_step.py.
pub mod Counts
pub mod Reconciliation
pub mod Metrics
pub mod Verdict
pub mod Ending
use mathlib.Core.Option
use enterprise_vault_migrati.Prelude.{
  ℕ, String, Bool, false, Option, none, some, List, [], ◌∷◌, ◌++◌, ◌&&◌, ◌||◌, not, if◌then◌else◌,
  text_in, length, or_else, or_option, is_some,
}
use enterprise_vault_migrati.Runtime.{Runtime, elapsed}
use enterprise_vault_migrati.StateMachine
use enterprise_vault_migrati.StateMachine.{MigrationState, StateMachine, same_state, advance}
use enterprise_vault_migrati.Contracts.{
  Metrics as StepMetrics, ProgressSnapshot, ReconciliationResult, ExecutionReport, ExecutionResult,
  report_defaults,
}
use enterprise_vault_migrati.Contracts.Documents.{
  ArchiveDiscoveryResult, TransformedDocument, ExtractionResult,
}
use enterprise_vault_migrati.Checkpoint.{CheckpointSnapshot}
use enterprise_vault_migrati.Tracker.{new_tracker, publish}
use enterprise_vault_migrati.Context.{StepContext, known_metrics, known_report, completed_at}
use enterprise_vault_migrati.Reporting.Summary.{
  resolve_final_status, build_execution_report_summary,
}
use enterprise_vault_migrati.Reporting.Breakdown.{build_error_breakdown_entries}
use Counts.{
  from, documents_of, build_warnings, build_errors, last_processed, resolve_current_document,
  resolve_total_items, resolve_successful_items, resolve_failed_items, resolve_skipped_items,
}
use Reconciliation.{resolve_reconciliation}
use Metrics.{resolve_metrics}

-- `state == MigrationState.FAILED`, of a state that may be None
abbrev pub is_failed : Option MigrationState → Bool
is_failed none = false
is_failed (some s) = same_state s MigrationState.failed

-- _resolve_state_machine
unfoldable pub resolve_state_machine :
    Option StateMachine → Option MigrationState → Bool → StateMachine
resolve_state_machine (some m) state failed = m
resolve_state_machine none state failed =
    let initial = or_else state MigrationState.finalizing in
    StateMachine.new (
      if failed && not (same_state initial MigrationState.failed)
      then MigrationState.failed
      else initial)

-- `if current != state and can_transition(state): transition_to(state)`
unfoldable pub move_to : MigrationState → StateMachine → StateMachine
move_to s m = if same_state m.current_state s then m else advance m s

-- _advance_state_machine
unfoldable pub advance_state_machine : Bool → StateMachine → StateMachine
unfolding move_to
advance_state_machine failed m =
    if failed
    then move_to MigrationState.failed m
    else advance (move_to MigrationState.finalizing m) MigrationState.completed

-- `tuple(warning for warning in warnings if warning not in known)`
unfoldable pub new_warnings : List String → List String → List String
new_warnings known [] = []
new_warnings known (w ∷ ws) =
    let rest = new_warnings known ws in if text_in w known then rest else w ∷ rest

module _ {F : Type 0} where
  -- _has_failed_execution
  unfoldable pub has_failed_execution : StepContext F → Bool
  has_failed_execution c =
      from false (λ (m : StateMachine). same_state m.current_state MigrationState.failed)
        c.state_machine
      || is_failed c.execution_context.state

  -- _build_snapshot, with what it takes from the context where there is no current document
  unfoldable pub build_snapshot :
      StepContext F → ℕ → ℕ → Option TransformedDocument → ProgressSnapshot
  build_snapshot c started finished current =
      let document = or_option current (last_processed c) in
      record {
        total_items = resolve_total_items c;
        processed_items = resolve_total_items c;
        successful_items = resolve_successful_items c;
        failed_items = resolve_failed_items c;
        skipped_items = resolve_skipped_items c;
        current_archive = Option.map (λ (d : TransformedDocument). d.archive_name) document;
        current_mailbox = Option.bind document (λ (d : TransformedDocument). d.mailbox_address);
        current_item = Option.map (λ (d : TransformedDocument). d.filename) document;
        started_at = started;
        last_updated = finished;
      }

module _ {F : Type 0} (rt : Runtime F) where
  -- the warnings of the report: those it has and the new ones, or all of a new report
  merged_warnings : Option (ExecutionReport F) → List String → List String
  merged_warnings none ws = ws
  merged_warnings (some r) ws = r.warnings ++ new_warnings r.warnings ws

  -- _resolve_report
  unfoldable pub resolve_report :
      Option (ExecutionReport F)
      → StepMetrics F
      → ReconciliationResult
      → StepContext F
      → ℕ
      → ℕ
      → Bool
      → ExecutionReport F
  unfolding new_warnings merged_warnings
  resolve_report known metrics reconciliation c started finished failed =
      let configuration = c.execution_context.configuration in
      let duration = elapsed rt started finished in
      let base : ExecutionReport F =
        or_else known (report_defaults 0 0 0 duration false none configuration) in
      record base {
        successful_steps = (if failed then 0 else 1);
        failed_steps = (if failed then 1 else 0);
        skipped_steps = 0;
        duration_seconds = duration;
        completed = not failed;
        job_id = some c.execution_context.migration_id;
        started_at = some started;
        completed_at = some finished;
        resumed = is_some c.checkpoint;
        checkpoint_sequence = none;
        discovered_archives =
            from 0 (λ (d : ArchiveDiscoveryResult). d.archive_count) c.discovery_result;
        extracted_items = from 0 (λ (e : ExtractionResult). e.total_items) c.extraction_result;
        transformed_items = length (documents_of c.transformation_result);
        warnings = merged_warnings known (build_warnings rt c);
        metrics = some metrics;
        reconciliation = some reconciliation;
        archive_names = configuration.archive_names;
        folder_paths = configuration.folder_paths;
        start_date = configuration.start_date;
        end_date = configuration.end_date;
      }

  -- the report with its final status, its error breakdown and its summary
  unfoldable pub concluded : StepContext F → ExecutionReport F → ExecutionReport F
  concluded c r =
      let status = resolve_final_status r in
      let r' = record r { final_status = some status } in
      record r' {
        summary = some (
            build_execution_report_summary rt r'
              (Option.map (λ (k : CheckpointSnapshot F). k.checkpoint_id) c.checkpoint));
        error_breakdown = build_error_breakdown_entries c status none false 1 none;
      }

  -- finalize_migration
  unfoldable pub finalize_migration : StepContext F → StepContext F
  unfolding has_failed_execution resolve_state_machine advance_state_machine build_snapshot
      resolve_report concluded
  finalize_migration c =
      let started = c.execution_context.started_at in
      let finished = completed_at c.execution_context in
      let warnings = build_warnings rt c in
      let failed = has_failed_execution c in
      let machine =
        advance_state_machine failed
          (resolve_state_machine c.state_machine c.execution_context.state failed) in
      let state = machine.current_state in
      let reconciliation = resolve_reconciliation c in
      let metrics = resolve_metrics rt (known_metrics c) c reconciliation started finished in
      let snapshot = build_snapshot c started finished (resolve_current_document c) in
      let report =
        concluded c
          (resolve_report (known_report c) metrics reconciliation c started finished failed) in
      let result : ExecutionResult F = record {
        success = not failed;
        execution_report = some report;
        metrics = some metrics;
        completed_at = some finished;
        duration = some (finished, started);
        warnings = warnings;
        errors = build_errors failed warnings;
      } in
      let tracker =
        or_else c.progress_tracker
          (new_tracker snapshot (some metrics) none (some report) (some state)) in
      let e = record c.execution_context {
        current_step = some "FinalizeMigrationStep";
        metrics = some metrics;
        state = some state;
        current_timestamp = some finished;
      } in
      record c {
        execution_context = e;
        progress_tracker = some (publish e report metrics snapshot state tracker);
        state_machine = some machine;
        execution_report = some report;
        execution_result = some result;
      }
