-- ===== src/Runner/Initial.antt =====
-- How src/migration_engine/runner/pipeline_runner.py starts a run that is not resumed. The clock and
-- the new job's identifier are arguments.
use enterprise_vault_migrati.Prelude.{ℕ, String, Option, none, some, or_else, or_option}
use enterprise_vault_migrati.Errors.{ok, Attempt, ◌>>=◌}
use enterprise_vault_migrati.StateMachine.{
  MigrationState, StateMachine, new, advance, transition_to,
}
use enterprise_vault_migrati.Contracts.{
  Metrics, ProgressSnapshot, ExecutionContext, ExecutionReport, default_configuration,
}
use enterprise_vault_migrati.Tracker.{
  ProgressTracker, new_tracker, update_execution_context, update_migration_state,
}
use enterprise_vault_migrati.Context.{StepContext}
use enterprise_vault_migrati.Runner.Steps.{Shared, Live}

-- _build_initial_snapshot
unfoldable pub build_initial_snapshot : ℕ → ProgressSnapshot
build_initial_snapshot started = record {
  total_items = 0;
  processed_items = 0;
  successful_items = 0;
  failed_items = 0;
  skipped_items = 0;
  current_archive = none;
  current_mailbox = none;
  current_item = none;
  started_at = started;
  last_updated = started;
}

-- The attributes of a runner that `initialize` and `run` use. `held_tracker` is the progress tracker of
-- the initial execution context.
pub record Runner (F S : Type 0) : Type 0 where
  pub shared : Shared F S
  pub initial_context : Option (StepContext F)
  pub held_tracker : Option (ProgressTracker F)
  pub execution_context : Option (ExecutionContext F)
  pub current_step_context : Option (StepContext F)
  pub execution_report : Option (ExecutionReport F)
  pub metrics : Option (Metrics F)

module _ {F : Type 0} where
  -- MigrationStepContext(…), with its defaults
  abbrev pub bare_context :
      ExecutionContext F
      → Option (ProgressTracker F)
      → StateMachine
      → Option (ExecutionReport F)
      → StepContext F
  bare_context e tracker machine report = record {
    execution_context = e;
    progress_tracker = tracker;
    state_machine = some machine;
    execution_report = report;
    discovery_result = none;
    vault_stores = none;
    checkpoint = none;
    extraction_result = none;
    transformation_result = none;
    upload_result = none;
    verification_result = none;
    execution_result = none;
  }

module _ {F S : Type 0} (now : ℕ) (job : String) where
  -- the branch of `_build_initial_runtime` with an initial context
  unfoldable pub given_runtime : StepContext F → Runner F S → StepContext F × Shared F S
  unfolding build_initial_snapshot
  given_runtime c r =
      let e = c.execution_context in
      let machine =
        advance (new (or_else e.state MigrationState.created)) MigrationState.initializing in
      let tracker = or_else c.progress_tracker (
        or_else r.held_tracker (
          new_tracker (build_initial_snapshot e.started_at) none none none
            (some machine.current_state))) in
      let e' = record e {
        current_step = none;
        metrics = or_option r.metrics e.metrics;
        state = some machine.current_state;
        current_timestamp = some (or_else e.current_timestamp e.started_at);
      } in
      let tracker' =
        update_migration_state machine.current_state (update_execution_context e' tracker) in
      (
        record c {
          execution_context = e';
          progress_tracker = some tracker';
          state_machine = some machine;
        },
        record r.shared { machine = machine; tracker = some tracker' },
      )

  -- the branch without one, for a machine that has been moved
  unfoldable pub new_runtime : StateMachine → Runner F S → StepContext F × Shared F S
  unfolding build_initial_snapshot
  new_runtime machine r =
      let e : ExecutionContext F = record {
        migration_id = job;
        configuration = default_configuration;
        started_at = now;
        current_step = none;
        metrics = r.metrics;
        state = some machine.current_state;
        current_timestamp = some now;
      } in
      let tracker =
        update_execution_context e
          (new_tracker (build_initial_snapshot now) none none none (some machine.current_state)) in
      (
        bare_context e (some tracker) machine none,
        record r.shared { machine = machine; tracker = some tracker },
      )

  -- _build_initial_runtime
  unfoldable pub build_initial_runtime :
      Option (StepContext F) → Runner F S → Attempt F (StepContext F × Shared F S)
  unfolding given_runtime new_runtime
  build_initial_runtime (some c) r = ok (given_runtime c r)
  build_initial_runtime none r =
      transition_to r.shared.machine MigrationState.initializing >>= λ machine.
      ok (new_runtime machine r)

  -- initialize
  unfoldable pub initialize :
      Option (ExecutionContext F) → Runner F S → Attempt F (ExecutionContext F × Runner F S)
  unfolding build_initial_runtime
  initialize (some e) r = ok (e, r)
  initialize none r = build_initial_runtime r.initial_context r >>= λ (c, s). ok (
    c.execution_context,
    record r {
      shared = s;
      execution_context = some c.execution_context;
      current_step_context = some c;
    },
  )

  -- _build_current_step_context
  unfoldable pub build_current_step_context :
      Option (StepContext F) → ExecutionContext F → Runner F S → StepContext F
  build_current_step_context (some c) e r = record c {
    execution_context = e;
    progress_tracker = or_option r.shared.tracker c.progress_tracker;
    state_machine = some r.shared.machine;
  }
  build_current_step_context none e r =
      bare_context e (or_option r.shared.tracker r.held_tracker) r.shared.machine r.execution_report

  -- the first branch of `run`: the variables before the loop, and `latest_metrics`
  unfoldable pub start_run : Runner F S → Attempt F (Live F S × Option (Metrics F))
  unfolding initialize build_current_step_context
  start_run r = initialize r.execution_context r >>= λ (e, r'). ok (
    record {
      shared = r'.shared;
      context = build_current_step_context r'.current_step_context e r';
      attempt_context = e;
      successful_steps = 0;
      failed_steps = 0;
      skipped_steps = 0;
    },
    r'.metrics,
  )
