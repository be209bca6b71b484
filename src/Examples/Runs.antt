-- ===== src/Examples/Runs.antt =====
-- The runner's registry, checkpoints, retries and the resumption of a job at concrete inputs.
use enterprise_vault_migrati.Prelude.{
  ℕ, zero, suc, ◌≡◌, refl, false, Option, none, some, List, [], ◌∷◌, String,
}
use enterprise_vault_migrati.Errors.{ok, err, Attempt, too_many_requests}
use enterprise_vault_migrati.StateMachine.{MigrationState, parse_state}
use enterprise_vault_migrati.Contracts.{Metrics, metrics_defaults}
use enterprise_vault_migrati.Checkpoint.{CheckpointSnapshot, in_memory_repository}
use enterprise_vault_migrati.Context.{StepContext, known_metrics}
use enterprise_vault_migrati.Retry.{RetryStrategy, RetryPolicy, RetryRecord}
use enterprise_vault_migrati.Runner.Registry.{resolve, index_of, step_order}
use enterprise_vault_migrati.Runner.Ordering.{CutAt}
use enterprise_vault_migrati.Runner.Checkpoints.{
  build_checkpoint_snapshot, build_checkpoint_metrics, resolve_resume_configuration,
  resolve_resume_index,
}
use enterprise_vault_migrati.Runner.Restore.{Restored, checkpoint_restores, resume_index}
use enterprise_vault_migrati.Runner.Retries.{Trace}
use enterprise_vault_migrati.Runner.Resume.{resume_migration}
use enterprise_vault_migrati.Runner.Admission.{Answer, resume_answers}
use enterprise_vault_migrati.Examples.Data.{nat_runtime, context, machine}

abbrev steps : List String
steps = "UploadItemsStep" ∷ "CustomStep" ∷ "DiscoverArchivesStep" ∷ []

upload_index : index_of "UploadItemsStep" steps ≡ some 1
unfolding index_of resolve step_order
upload_index = refl

resume_index_example :
    (resolve_resume_index nat_runtime steps (some "UploadItemsStep") ≡ ok 2)
    × CutAt "UploadItemsStep" 1 (resolve steps)
resume_index_example = resume_index nat_runtime steps "UploadItemsStep" 1 upload_index

-- Metrics with counted retries.
abbrev counted : Metrics ℕ
counted = record (metrics_defaults nat_runtime 4 0 0 0 none none) {
  processed_items = 3;
  successful_items = 2;
  failed_items = 1;
  throttled_uploads = 2;
}

abbrev running : StepContext ℕ
running = record (context false) {
  execution_context = record (context false).execution_context {
    metrics = some counted;
    current_step = some "UploadItemsStep";
    state = some MigrationState.uploading;
  };
}

running_metrics : known_metrics running ≡ some counted
unfolding known_metrics
running_metrics = refl

abbrev checkpoint : CheckpointSnapshot ℕ
checkpoint = build_checkpoint_snapshot nat_runtime (machine MigrationState.uploading) running

checkpoint_restores_example :
    Restored nat_runtime 1 5 counted (build_checkpoint_metrics nat_runtime checkpoint 1 5)
    × (resolve_resume_configuration none checkpoint ≡ running.execution_context.configuration)
    × (parse_state checkpoint.current_state ≡ some MigrationState.uploading)
checkpoint_restores_example =
    checkpoint_restores nat_runtime (machine MigrationState.uploading) running counted 1 5
      running_metrics

abbrev three_attempts : Option (RetryPolicy ℕ)
three_attempts = some (record {
  strategy = RetryStrategy.fixed_delay;
  max_attempts = 3;
  fixed_delay_seconds = 1;
  initial_backoff_seconds = 1;
  maximum_backoff_seconds = 1;
  backoff_multiplier = 1;
})

-- A step that is throttled in each attempt but the third.
abbrev throttled_twice : ℕ → Trace ℕ → ℕ → (Option (Metrics ℕ) × Attempt ℕ String) × ℕ
throttled_twice zero t calls = ((none, ok ""), suc calls)
throttled_twice (suc (suc (suc n))) t calls = ((none, ok "done"), suc calls)
throttled_twice (suc n) t calls = (
  (
    none,
    err (record {
      error_class = too_many_requests;
      message = "Too Many Requests";
      status_code = some 429;
      retry_after_seconds = some (some 2);
    }),
  ),
  suc calls,
)

abbrev untried : Trace ℕ
untried = record { latest_metrics = none; records = []; delays = [] }

-- A retry repository that refuses nothing, and a sleeper.
abbrev saving : RetryRecord → ℕ → Attempt ℕ (Unit {0}) × ℕ
saving r calls = (ok tt, calls)

abbrev sleeping : ℕ → ℕ → Attempt ℕ (Unit {0}) × ℕ
sleeping delay calls = (ok tt, calls)

resume_answers_example :
    Answer nat_runtime {A = String}
      (λ k. ok k.checkpoint_id)
      "job"
      (in_memory_repository.load_checkpoint "job" (("job", checkpoint) ∷ []))
      (resume_migration nat_runtime in_memory_repository
        (λ k. ok k.checkpoint_id)
        "job"
        false
        (("job", checkpoint) ∷ []))
resume_answers_example =
    resume_answers nat_runtime in_memory_repository (λ k. ok k.checkpoint_id) "job" false
      (("job", checkpoint) ∷ [])
