-- ===== src/Examples/Resumes.antt =====
-- The start and the resumption of a run at concrete inputs.
use enterprise_vault_migrati.Prelude.{ℕ, ◌≡◌, refl, false, Option, none, some, List, [], ◌∷◌, inl}
use enterprise_vault_migrati.Errors.{ok, Answers, ◌>>=◌}
use enterprise_vault_migrati.StateMachine.{MigrationState, is_terminal, parse_state}
use enterprise_vault_migrati.Contracts.{Metrics, validate_configuration}
use enterprise_vault_migrati.Checkpoint.{CheckpointSnapshot}
use enterprise_vault_migrati.Runner.Registry.{resolve, index_of, step_order}
use enterprise_vault_migrati.Runner.Checkpoints.{resolve_resume_configuration}
use enterprise_vault_migrati.Runner.Steps.{Live, Step, in_context, step_state}
use enterprise_vault_migrati.Runner.Initial.{Runner, start_run}
use enterprise_vault_migrati.Runner.Ready.{Agrees, start_run-Agrees, starting_state}
use enterprise_vault_migrati.Runner.Replay.{Replaying, Resumed, build_resume_runtime}
use enterprise_vault_migrati.Runner.Repeats.{OneFails}
use enterprise_vault_migrati.Runner.Recovery.{build_resume_runtime-Answers}
use enterprise_vault_migrati.Runner.Whole.{run_live}
use enterprise_vault_migrati.Runner.DryRun.{dry_run, orchestrator_run, dry_run_lem}
use enterprise_vault_migrati.Runner.Reconstruct.{from_target, IsReplayable}
use enterprise_vault_migrati.Upload.{upload}
use enterprise_vault_migrati.Examples.Data.{
  nat_runtime, counting_port, configuration, context, machine,
}
use enterprise_vault_migrati.Examples.Steps.{setup, good}

abbrev runner : Runner ℕ ℕ
runner = record {
  shared = record { machine = machine MigrationState.created; tracker = none; world = 0 };
  initial_context = some (context false);
  held_tracker = none;
  execution_context = none;
  current_step_context = some (context false);
  execution_report = none;
  metrics = none;
}

start_run-Agrees_example :
    (x : Live ℕ ℕ × Option (Metrics ℕ)) × (start_run 1 "job" runner ≡ ok x)
    × Agrees x.0.shared x.0.context
    × (x.0.shared.machine.current_state ≡ starting_state runner.initial_context)
unfolding is_terminal
start_run-Agrees_example = start_run-Agrees 1 "job" runner refl (λ e. refl)

abbrev discovering : Step ℕ ℕ
discovering = record good { name = "DiscoverArchivesStep" }

abbrev verifying : Step ℕ ℕ
verifying = record good { name = "VerifyItemsStep" }

-- An upload that changes the target, which counts the calls.
abbrev uploading : Step ℕ ℕ
uploading = record good {
  execute = λ c s.
      let (o, w) = upload nat_runtime counting_port [] c s.world in
      ((o >>= λ c'. ok (in_context c')), record s { world = w });
}

abbrev replaying : Replaying ℕ ℕ
replaying = from_target nat_runtime counting_port [] (λ name. 6) (λ name. 7)

-- The checkpoint behind the upload.
abbrev saved : CheckpointSnapshot ℕ
saved = record {
  checkpoint_id = "job:UploadItemsStep";
  migration_job_id = "job";
  last_completed_step = some "UploadItemsStep";
  last_processed_item_id = some "a";
  processed_items = 2;
  successful_items = 2;
  failed_items = 0;
  skipped_items = 0;
  filtered_archives = 0;
  filtered_items = 0;
  uploaded_items = 2;
  verification_failures = 0;
  current_state = "uploading";
  created_at = 1;
  updated_at = 5;
  dry_run = false;
  dry_run_items = 0;
  archive_names = none;
  folder_paths = none;
  start_date = none;
  end_date = none;
  upload_worker_count = 2;
  upload_requests_per_second = none;
  throttled_uploads = 0;
  retry_after_count = 0;
  temporary_failures = 0;
  worker_utilization = 0;
  version = 1;
}

abbrev three : List (Step ℕ ℕ)
three = discovering ∷ uploading ∷ verifying ∷ []

discovering-IsReplayable : IsReplayable discovering
discovering-IsReplayable = record {
  quiet = λ c s. (refl, refl);
  repeatable = λ other. record {
    world_kept = λ c s. refl;
    machine_moved = λ c s. inl refl;
    finalize_keeps = λ c s. (refl, refl);
  };
}

uploading-IsReplayable : IsReplayable uploading
uploading-IsReplayable = record {
  quiet = λ c s. (refl, refl);
  repeatable = λ other. absurd (other refl);
}

build_resume_runtime-Answers_example :
    Answers
      (λ (x : Resumed ℕ ℕ).
        (x.start_index ≡ 2)
        × (x.live.shared.world ≡ 0)
        × (x.live.shared.machine.current_state ≡ MigrationState.uploading))
      (OneFails nat_runtime setup replaying 1 (discovering ∷ uploading ∷ []))
      (build_resume_runtime nat_runtime setup replaying three none saved 0)
unfolding resolve step_order index_of step_state parse_state validate_configuration
    resolve_resume_configuration is_terminal
build_resume_runtime-Answers_example =
    build_resume_runtime-Answers nat_runtime setup counting_port [] (λ name. 6) (λ name. 7) three
      none saved 0 "UploadItemsStep" 1 MigrationState.uploading MigrationState.uploading refl refl
      refl refl refl refl (discovering-IsReplayable, (uploading-IsReplayable, tt))

-- A runner whose run has begun without the flag.
abbrev begun : Runner ℕ ℕ
begun = record runner { execution_context = some (context false).execution_context }

dry_run_lem_example :
    ((dry_run
        (orchestrator_run nat_runtime setup replaying 1 "job" three (λ r. r))
        none
        begun).1.initial_context
      ≡ some (context false))
    × ((l : Live ℕ ℕ) × (m : Option (Metrics ℕ)) × ((dry_run
            (orchestrator_run nat_runtime setup replaying 1 "job" three (λ r. r))
            none
            begun).0
          ≡ run_live nat_runtime setup replaying three l m)
        × (l.context.execution_context.configuration ≡ configuration false))
dry_run_lem_example =
    dry_run_lem nat_runtime setup replaying 1 "job" three (λ r. r) none begun (context false) refl
