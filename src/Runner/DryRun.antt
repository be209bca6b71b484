-- ===== src/Runner/DryRun.antt =====
-- src/application/use_cases/dry_run.py. What the orchestrator's run makes of the runner is the
-- argument `run`.
use enterprise_vault_migrati.Prelude.{
  ℕ, String, ◌≡◌, refl, sym, ap, true, Option, none, some, List, or_option,
}
use enterprise_vault_migrati.Runtime.{Runtime}
use enterprise_vault_migrati.Errors.{ok, err, Attempt, plain, value_error, ◌>>=◌}
use enterprise_vault_migrati.Contracts.{Configuration, Metrics, ExecutionContext, ExecutionResult}
use enterprise_vault_migrati.Context.{StepContext}
use enterprise_vault_migrati.Runner.Steps.{Live, Step}
use enterprise_vault_migrati.Runner.Initial.{
  Runner, start_run, initialize, build_initial_runtime, given_runtime, build_current_step_context,
}
use enterprise_vault_migrati.Runner.Loop.{Setup}
use enterprise_vault_migrati.Runner.Replay.{Replaying}
use enterprise_vault_migrati.Runner.Whole.{run, run_started, run_live}

-- the configuration with `dry_run=True`, and the context with that
unfoldable pub dry_run_configuration : {F : Type 0} → Configuration F → Configuration F
dry_run_configuration c = record c { dry_run = true }

unfoldable pub dry_run_context : {F : Type 0} → StepContext F → StepContext F
unfolding dry_run_configuration
dry_run_context c = record c {
  execution_context = record c.execution_context {
    configuration = dry_run_configuration c.execution_context.configuration;
  };
}

module _ {F S A : Type 0} (orchestrated : Runner F S → Option (Attempt F A) × Runner F S) where
  -- once there is a context; the `finally` block puts the initial context back
  unfoldable pub dry_run_from :
      Option (StepContext F) → Runner F S → Option (Attempt F A) × Runner F S
  unfolding dry_run_context
  dry_run_from none r =
      (some (err (plain value_error "Dry-run execution requires an initial migration context.")), r)
  dry_run_from (some c) r =
      let (answer, r') = orchestrated (record r { initial_context = some (dry_run_context c) }) in
      (answer, record r' { initial_context = r.initial_context })

  -- execute
  unfoldable pub dry_run : Option (StepContext F) → Runner F S → Option (Attempt F A) × Runner F S
  unfolding dry_run_from
  dry_run given r = dry_run_from (or_option given r.initial_context) r

-- The configuration that a dry run from the context `c` runs with.
abbrev pub effective : {F : Type 0} → Option (ExecutionContext F) → StepContext F → Configuration F
effective none c = record c.execution_context.configuration { dry_run = true }
effective (some e) c = e.configuration

module _ {F S : Type 0} (now : ℕ) (job : String) where
  -- A start with this configuration.
  abbrev StartsWith : Attempt F (Live F S × Option (Metrics F)) → Configuration F → Type 0
  StartsWith o configuration =
      (x : Live F S × Option (Metrics F)) × (o ≡ ok x)
      × (x.0.context.execution_context.configuration ≡ configuration)

  current-configuration :
      (o : Option (StepContext F)) (e : ExecutionContext F) (r : Runner F S)
      → (build_current_step_context now job o e r).execution_context.configuration ≡ e.configuration
  unfolding build_current_step_context
  current-configuration none e r = refl
  current-configuration (some c) e r = refl

  start-StartsWith :
      (o : Option (ExecutionContext F)) (c : StepContext F) (r : Runner F S)
      → StartsWith
          (initialize now job o (record r { initial_context = some (dry_run_context c) })
            >>= λ (e, r'). ok (
              record {
                shared = r'.shared;
                context = build_current_step_context now job r'.current_step_context e r';
                attempt_context = e;
                successful_steps = 0;
                failed_steps = 0;
                skipped_steps = 0;
              },
              r'.metrics,
            ))
          (effective o c)
  unfolding initialize build_initial_runtime given_runtime dry_run_context
      build_current_step_context
  start-StartsWith none c r = (_, refl, refl)
  start-StartsWith (some e) c r = (_, refl, current-configuration r.current_step_context e _)

  start_run-StartsWith :
      (c : StepContext F) (r : Runner F S)
      → StartsWith
          (start_run now job (record r { initial_context = some (dry_run_context c) }))
          (effective r.execution_context c)
  unfolding start_run
  start_run-StartsWith c r = start-StartsWith r.execution_context c r

module _ {F S : Type 0} (rt : Runtime F) (setup : Setup F S) (replaying : Replaying F S) (now : ℕ)
    (job : String) (steps : List (Step F S)) where
  -- The orchestrator's run, which makes of the runner what `after` says.
  abbrev pub orchestrator_run :
      (Runner F S → Runner F S)
      → Runner F S
      → Option (Attempt F (ExecutionResult F × Live F S)) × Runner F S
  orchestrator_run after r = (run rt setup replaying now job steps r none, after r)

  dry_run_from_lem :
      (after : Runner F S → Runner F S) (o : Option (StepContext F)) (r : Runner F S)
      (c : StepContext F)
      → o ≡ some c
      → let (answer, r') = dry_run_from (orchestrator_run after) o r in
        (r'.initial_context ≡ r.initial_context)
        × ((l : Live F S) × (m : Option (Metrics F)) × (answer
              ≡ run_live rt setup replaying steps l m)
            × (l.context.execution_context.configuration ≡ effective r.execution_context c))
  unfolding dry_run_from run run_started
  dry_run_from_lem after none r c e = absurd (cc e)
  dry_run_from_lem after (some d) r c e =
      let same : d ≡ c = cc e in
      let (x, q, configured) = start_run-StartsWith now job d r in
      rw (sym same) (refl, (x.0, x.1, ap (run_started rt setup replaying steps) q, configured))

  -- A dry run with a context answers with the run of the steps from a start whose configuration is
  -- that of the context with the dry-run flag set, if the runner has not been initialized; on an
  -- initialized one it is the configuration of before, whatever its flag. The runner's initial
  -- context is put back.
  pub dry_run_lem :
      (after : Runner F S → Runner F S) (given : Option (StepContext F)) (r : Runner F S)
      (c : StepContext F)
      → or_option given r.initial_context ≡ some c
      → let (answer, r') = dry_run (orchestrator_run after) given r in
        (r'.initial_context ≡ r.initial_context)
        × ((l : Live F S) × (m : Option (Metrics F)) × (answer
              ≡ run_live rt setup replaying steps l m)
            × (l.context.execution_context.configuration ≡ effective r.execution_context c))
  unfolding dry_run
  dry_run_lem after given r c e = dry_run_from_lem after (or_option given r.initial_context) r c e
