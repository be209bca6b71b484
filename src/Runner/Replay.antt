-- ===== src/Runner/Replay.antt =====
-- `_build_resume_runtime` of src/migration_engine/runner/pipeline_runner.py: the runtime that a
-- checkpoint restores, and the replay of the steps that it has behind it.
use Prim.Native.String.{◌++◌ as ◌+s◌}
use enterprise_vault_migrati.Prelude.{
  ℕ, ◌+◌, String, false, Option, none, some, List, [], ◌∷◌, map, take, if◌then◌else◌, str_eq,
}
use enterprise_vault_migrati.Runtime.{Runtime}
use enterprise_vault_migrati.Errors.{ok, err, Attempt, plain, value_error, ◌>>=◌}
use enterprise_vault_migrati.StateMachine.{MigrationState, new, parse_state}
use enterprise_vault_migrati.Contracts.{
  Configuration, Metrics, ExecutionContext, ExecutionReport, report_defaults,
  validate_configuration,
}
use enterprise_vault_migrati.Checkpoint.{CheckpointSnapshot}
use enterprise_vault_migrati.Tracker.{
  new_tracker, update_execution_context, update_metrics, update_execution_report,
  update_migration_state,
}
use enterprise_vault_migrati.Context.{StepContext}
use enterprise_vault_migrati.Runner.Checkpoints.{
  resolve_metrics, build_checkpoint_metrics, build_checkpoint_progress_snapshot,
  resolve_resume_configuration, resolve_resume_index,
}
use enterprise_vault_migrati.Runner.Retries.{merge_retry_metrics}
use enterprise_vault_migrati.Runner.Steps.{
  Shared, Live, Yield, Step, advance_context, sync_tracker, yielded_report, yielded_metrics,
  yielded_context, kept,
}
use enterprise_vault_migrati.Runner.Loop.{Setup, enter_step}
use enterprise_vault_migrati.Runner.Initial.{bare_context}

-- What replaying a step uses: `prepare` and `reconstruct_upload` of the upload step, and the clock by
-- the step that it is read for, before it and after it.
pub record Replaying (F S : Type 0) : Type 0 where
  pub reconstruct : StepContext F → Shared F S → Attempt F (Yield F) × Shared F S
  pub entered_at : String → ℕ
  pub left_at : String → ℕ

module _ {F S : Type 0} (rt : Runtime F) (setup : Setup F S) (replaying : Replaying F S)
    (started : ℕ) where
  -- `reconstruct_upload` for the upload step, `_execute_step` or `execute` for the others
  unfoldable pub replay_execute :
      Step F S → StepContext F → Shared F S → Attempt F (Yield F) × Shared F S
  replay_execute step =
      if str_eq step.name "UploadItemsStep" then replaying.reconstruct else step.execute

  -- once the step has given its report; `m` are the merged metrics
  unfoldable pub replay_left :
      Step F S
      → Option (Metrics F)
      → ExecutionReport F
      → StepContext F
      → Live F S
      → Attempt F (Live F S × Option (Metrics F))
  replay_left step m r c l =
      let timestamp = replaying.left_at step.name in
      let e =
        advance_context c.execution_context (some step.name) l.shared.machine.current_state
          timestamp m in
      let metrics = resolve_metrics rt m started timestamp in
      let s = sync_tracker e timestamp metrics r l.shared in
      let (o, s') = step.finalize e s in
      o >>= λ _. ok (
        record {
          shared = s';
          context = kept c e s (some r);
          attempt_context = l.attempt_context;
          successful_steps = l.successful_steps + r.successful_steps;
          failed_steps = l.failed_steps + r.failed_steps;
          skipped_steps = l.skipped_steps + r.skipped_steps;
        },
        m,
      )

  -- the body of the loop
  unfoldable pub replay_step :
      Step F S → Option (Metrics F) → Live F S → Attempt F (Live F S × Option (Metrics F))
  unfolding enter_step replay_execute replay_left
  replay_step step latest l =
      let entered = enter_step rt setup step l in
      let e =
        advance_context entered.context.execution_context (some step.name)
          entered.shared.machine.current_state (replaying.entered_at step.name) latest in
      let c = kept entered.context e entered.shared entered.context.execution_report in
      let (o, s) = replay_execute step c entered.shared in
      o >>= λ y. yielded_report step.name y >>= λ r.
      replay_left step (merge_retry_metrics rt (yielded_metrics y) latest) r (yielded_context y c)
        (record entered { shared = s })

  -- `for step in self.steps[:resume_index]`
  unfoldable pub replay_steps :
      List (Step F S) → Option (Metrics F) → Live F S → Attempt F (Live F S × Option (Metrics F))
  unfolding replay_step
  replay_steps [] latest l = ok (l, latest)
  replay_steps (step ∷ steps) latest l =
      replay_step step latest l >>= λ (l', latest'). replay_steps steps latest' l'

-- MigrationState(value)
unfoldable pub state_of : {F : Type 0} → Runtime F → String → Attempt F MigrationState
state_of rt v = elim (parse_state v) [
  | none ↦ err (plain value_error (rt.repr v +s " is not a valid MigrationState"))
  | some s ↦ ok s
]

module _ {F S : Type 0} (rt : Runtime F) where
  -- what the checkpoint restores, before anything is replayed
  unfoldable pub restored_live :
      Configuration F → CheckpointSnapshot F → MigrationState → S → Live F S
  unfolding build_checkpoint_metrics build_checkpoint_progress_snapshot
  restored_live configuration k state world =
      let metrics = build_checkpoint_metrics rt k k.created_at k.updated_at in
      let snapshot = build_checkpoint_progress_snapshot k k.created_at k.updated_at in
      let report =
        report_defaults 0 0 0 metrics.duration_seconds false (some metrics) configuration in
      let machine = new state in
      let e : ExecutionContext F = record {
        migration_id = k.migration_job_id;
        configuration = configuration;
        started_at = k.created_at;
        current_step = k.last_completed_step;
        metrics = some metrics;
        state = some state;
        current_timestamp = some k.updated_at;
      } in
      let tracker = update_migration_state state (
        update_execution_report report (
          update_metrics metrics (
            update_execution_context e
              (new_tracker snapshot (some metrics) none (some report) (some state))))) in
      record {
        shared = record { machine = machine; tracker = some tracker; world = world };
        context = record (bare_context e (some tracker) machine (some report)) {
          checkpoint = some k;
        };
        attempt_context = e;
        successful_steps = 0;
        failed_steps = 0;
        skipped_steps = 0;
      }

-- What a resumed run goes on with.
pub record Resumed (F S : Type 0) : Type 0 where
  pub live : Live F S
  pub latest_metrics : Option (Metrics F)
  pub start_index : ℕ

module _ {F S : Type 0} (rt : Runtime F) (setup : Setup F S) (replaying : Replaying F S) where
  -- _build_resume_runtime; `steps` are the resolved ones, `initial` is the configuration of the initial
  -- context
  unfoldable pub build_resume_runtime :
      List (Step F S)
      → Option (Configuration F)
      → CheckpointSnapshot F
      → S
      → Attempt F (Resumed F S)
  unfolding resolve_resume_index state_of restored_live replay_steps
  build_resume_runtime steps initial k world =
      resolve_resume_index rt (map (λ (s : Step F S). s.name) steps) k.last_completed_step >>= λ i.
      state_of rt k.current_state >>= λ state.
      validate_configuration rt (resolve_resume_configuration initial k) >>= λ configuration.
      replay_steps rt setup replaying k.created_at (take i steps)
        (some (build_checkpoint_metrics rt k k.created_at k.updated_at))
        (restored_live rt configuration k state world)
      >>= λ (l, m). ok (record { live = l; latest_metrics = m; start_index = i })
