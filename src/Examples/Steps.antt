-- ===== src/Examples/Steps.antt =====
-- The loop over the steps at concrete inputs.
use enterprise_vault_migrati.Prelude.{ℕ, suc, false, none, List, [], ◌∷◌}
use enterprise_vault_migrati.Errors.{ok, err, plain, other_error}
use enterprise_vault_migrati.StateMachine.{MigrationState}
use enterprise_vault_migrati.Contracts.{report_defaults}
use enterprise_vault_migrati.Runner.Retries.{Trace}
use enterprise_vault_migrati.Runner.Steps.{Step, Live, only_report}
use enterprise_vault_migrati.Runner.Loop.{Setup, run_steps}
use enterprise_vault_migrati.Runner.Results.{run_from}
use enterprise_vault_migrati.Runner.Verdicts.{Verdict, run_answers}
use enterprise_vault_migrati.Runner.Course.{Course}
use enterprise_vault_migrati.Examples.Data.{nat_runtime, configuration, context, machine}

abbrev pub setup : Setup ℕ ℕ
setup = record {
  migration_id = "job";
  configuration = configuration false;
  errors = [];
  started_at = 1;
  policy = none;
  classifier = none;
  save_retry = none;
  sleeper = none;
  save = none;
  attempted_at = λ name n. 2;
  succeeded_at = λ name n. 3;
  retried_at = λ name n. 4;
  ended_at = 5;
}

-- A step that succeeds and one that raises; the world counts the rollbacks.
abbrev pub good : Step ℕ ℕ
good = record {
  name = "UploadItemsStep";
  execute = λ c s. (ok (only_report (report_defaults 1 0 0 1 false none (configuration false))), s);
  finalize = λ c s. (ok tt, s);
  rollback = λ c s. (ok tt, record s { world = suc s.world });
}

abbrev bad : Step ℕ ℕ
bad = record good {
  name = "VerifyItemsStep";
  execute = λ c s. (err (plain other_error "target is gone"), s);
}

abbrev live : Live ℕ ℕ
live = record {
  shared = record { machine = machine MigrationState.initializing; tracker = none; world = 0 };
  context = context false;
  attempt_context = (context false).execution_context;
  successful_steps = 0;
  failed_steps = 0;
  skipped_steps = 0;
}

abbrev fresh : Trace ℕ
fresh = record { latest_metrics = none; records = []; delays = [] }

abbrev both : List (Step ℕ ℕ)
both = good ∷ bad ∷ good ∷ []

run_answers_example :
    Verdict nat_runtime setup
      (run_steps nat_runtime setup both [] live fresh)
      (run_from nat_runtime setup both live fresh)
run_answers_example = run_answers nat_runtime setup both live fresh
