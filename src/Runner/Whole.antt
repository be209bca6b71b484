-- ===== src/Runner/Whole.antt =====
-- The whole `run` of src/migration_engine/runner/pipeline_runner.py: its start or its resumption from a
-- checkpoint, then the loop over the steps that are left.
use mathlib.Core.Option
use enterprise_vault_migrati.Prelude.{ℕ, String, Option, none, some, List, [], drop}
use enterprise_vault_migrati.Runtime.{Runtime}
use enterprise_vault_migrati.Errors.{ok, err, Attempt}
use enterprise_vault_migrati.Contracts.{Configuration, Metrics, ExecutionContext, ExecutionResult}
use enterprise_vault_migrati.Checkpoint.{CheckpointSnapshot}
use enterprise_vault_migrati.Context.{StepContext}
use enterprise_vault_migrati.Runner.Steps.{Live, Step}
use enterprise_vault_migrati.Runner.Initial.{Runner, start_run}
use enterprise_vault_migrati.Runner.Loop.{Setup}
use enterprise_vault_migrati.Runner.Replay.{Replaying, Resumed, build_resume_runtime}
use enterprise_vault_migrati.Runner.Results.{run_from}

-- What the loop takes from the execution context of its run.
unfoldable pub setup_of : {F S : Type 0} → Setup F S → ExecutionContext F → Setup F S
setup_of setup e = record setup {
  migration_id = e.migration_id;
  configuration = e.configuration;
  errors = [];
  started_at = e.started_at;
}

abbrev pub initial_configuration : {F S : Type 0} → Runner F S → Option (Configuration F)
initial_configuration {F} r =
    Option.map (λ (c : StepContext F). c.execution_context.configuration) r.initial_context

module _ {F S : Type 0} (rt : Runtime F) (setup : Setup F S) (replaying : Replaying F S) where
  -- from the loop on
  unfoldable pub run_live :
      List (Step F S)
      → Live F S
      → Option (Metrics F)
      → Option (Attempt F (ExecutionResult F × Live F S))
  unfolding setup_of run_from
  run_live steps l m =
      run_from rt (setup_of setup l.context.execution_context) steps l
        (record { latest_metrics = m; records = []; delays = [] })

  unfoldable pub run_started :
      List (Step F S)
      → Attempt F (Live F S × Option (Metrics F))
      → Option (Attempt F (ExecutionResult F × Live F S))
  unfolding run_live
  run_started steps (err e) = some (err e)
  run_started steps (ok (l, m)) = run_live steps l m

  unfoldable pub run_resumed :
      List (Step F S) → Attempt F (Resumed F S) → Option (Attempt F (ExecutionResult F × Live F S))
  unfolding run_live
  run_resumed steps (err e) = some (err e)
  run_resumed steps (ok x) = run_live (drop x.start_index steps) x.live x.latest_metrics

  -- run, with the resolved steps
  unfoldable pub run :
      ℕ
      → String
      → List (Step F S)
      → Runner F S
      → Option (CheckpointSnapshot F)
      → Option (Attempt F (ExecutionResult F × Live F S))
  unfolding start_run run_started build_resume_runtime run_resumed
  run now job steps r none = run_started steps (start_run now job r)
  run now job steps r (some k) =
      run_resumed steps
        (build_resume_runtime rt setup replaying steps (initial_configuration r) k r.shared.world)
