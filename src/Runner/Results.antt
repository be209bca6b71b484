-- ===== src/Runner/Results.antt =====
-- `run` of src/migration_engine/runner/pipeline_runner.py: what it makes of the end of its loop.
use enterprise_vault_migrati.Prelude.{
  ℕ, String, Bool, true, false, Option, none, some, List, [], ◌∷◌, ◌++◌, is_some, or_else,
}
use enterprise_vault_migrati.Runtime.{Runtime, elapsed}
use enterprise_vault_migrati.Errors.{ok, err, Exception, Attempt, ◌>>=◌}
use enterprise_vault_migrati.StateMachine.{MigrationState, StateMachine, transition_to}
use enterprise_vault_migrati.Contracts.{
  Metrics, ErrorBreakdownEntry, ExecutionReport, ExecutionResult, report_defaults,
}
use enterprise_vault_migrati.Context.{StepContext}
use enterprise_vault_migrati.Retry.{RetryDecision}
use enterprise_vault_migrati.Reporting.Breakdown.{build_error_breakdown_entries}
use enterprise_vault_migrati.Runner.Checkpoints.{resolve_metrics}
use enterprise_vault_migrati.Runner.Retries.{Trace}
use enterprise_vault_migrati.Runner.Steps.{
  Live, Step, advance_context, sync_tracker, kept, rollback_steps,
}
use enterprise_vault_migrati.Runner.Loop.{
  Setup, Outcome, all_done, step_failed, raised, out_of_fuel, run_steps,
}

module _ {F S : Type 0} (rt : Runtime F) (setup : Setup F S) where
  -- `current_step_context.execution_report.warnings`, if there is a report
  unfoldable pub last_warnings : StepContext F → List String
  last_warnings c = elim c.execution_report [ none ↦ [] | some r ↦ r.warnings ]

  -- _build_execution_report
  unfoldable pub build_execution_report :
      Live F S → Metrics F → Bool → List String → List ErrorBreakdownEntry → ExecutionReport F
  build_execution_report l m completed warnings breakdown =
      record (report_defaults l.successful_steps l.failed_steps l.skipped_steps
        (elapsed rt setup.started_at setup.ended_at) completed (some m) setup.configuration) {
          warnings = warnings;
          error_breakdown = breakdown;
        }

  -- _build_result
  unfoldable pub build_result :
      Bool → ExecutionReport F → Metrics F → List String → ExecutionResult F
  build_result success report m errors = record {
    success = success;
    execution_report = some report;
    metrics = some m;
    completed_at = some setup.ended_at;
    duration = some (setup.ended_at, setup.started_at);
    warnings = report.warnings;
    errors = errors;
  }

  -- the messages for a failure with and without a decision on it
  unfoldable pub failure_message : Option (RetryDecision F) → String
  failure_message none = "Pipeline step failed."
  failure_message (some d) = "Pipeline step failed after retry exhaustion."

  -- the rest of the `except` block, for a machine that has been moved to the failed state
  unfoldable pub failed_run :
      List (Step F S)
      → Step F S
      → StepContext F
      → Exception F
      → Option (RetryDecision F)
      → ℕ
      → Live F S
      → Trace F
      → StateMachine
      → ExecutionResult F × Live F S
  unfolding last_warnings build_execution_report build_result failure_message
  failed_run completed step start e d n l t machine =
      let moved = record l.shared { machine = machine } in
      let attempted = kept start start.execution_context moved start.execution_report in
      let breakdown =
        build_error_breakdown_entries attempted "failed" (some step.name) (is_some d) n
          (some (failure_message d)) in
      let c =
        advance_context start.execution_context (some step.name) MigrationState.failed
          setup.ended_at t.latest_metrics in
      let m = resolve_metrics rt t.latest_metrics setup.started_at setup.ended_at in
      let report = build_execution_report l m false (last_warnings l.context) breakdown in
      let s = sync_tracker c setup.ended_at m report (rollback_steps completed step c moved) in
      (
        build_result false report m (setup.errors ++ e.message ∷ []),
        record l { shared = s; context = kept l.context c s (some report) },
      )

  -- what follows the loop, for a machine that has been moved to the completed state
  unfoldable pub completed_run : Live F S → Trace F → StateMachine → ExecutionResult F × Live F S
  unfolding last_warnings build_execution_report build_result
  completed_run l t machine =
      let m = resolve_metrics rt t.latest_metrics setup.started_at setup.ended_at in
      let report = build_execution_report l m true (last_warnings l.context) [] in
      let before = l.context.execution_context in
      let c =
        advance_context before before.current_step machine.current_state setup.ended_at (some m) in
      let s = sync_tracker c setup.ended_at m report (record l.shared { machine = machine }) in
      (
        or_else l.context.execution_result (build_result true report m []),
        record l { shared = s; context = kept l.context c s (some report) },
      )

  -- the end of a run, by the end of its loop; `none` where that had no fuel
  unfoldable pub conclude : Outcome F S → Option (Attempt F (ExecutionResult F × Live F S))
  unfolding failed_run completed_run
  conclude (all_done l t) =
      some
        (transition_to l.shared.machine MigrationState.completed >>= λ m. ok (completed_run l t m))
  conclude (step_failed completed step start e d n l t) = some (
      transition_to l.shared.machine MigrationState.failed >>= λ m.
      ok (failed_run completed step start e d n l t m))
  conclude (raised e) = some (err e)
  conclude out_of_fuel = none

  -- run, from the loop on, over the steps from the start index
  unfoldable pub run_from :
      List (Step F S) → Live F S → Trace F → Option (Attempt F (ExecutionResult F × Live F S))
  unfolding conclude
  run_from steps l t = conclude (run_steps rt setup steps [] l t)
