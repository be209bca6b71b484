-- ===== src/Runner/Checkpoints.antt =====
-- What src/migration_engine/runner/pipeline_runner.py writes into a checkpoint and takes out of it.
use Prim.Native.String.{◌++◌ as ◌+s◌}
use mathlib.Core.Option
use enterprise_vault_migrati.Prelude.{
  ℕ, suc, String, false, Option, none, some, List, if◌then◌else◌, ◌||◌, leb, length, or_else,
  or_option, or_text, last?,
}
use enterprise_vault_migrati.Runtime.{Runtime, elapsed, items_per_second}
use enterprise_vault_migrati.Errors.{ok, err, Attempt, plain, value_error}
use enterprise_vault_migrati.StateMachine.{StateMachine, state_value}
use enterprise_vault_migrati.Contracts.{Metrics, metrics_defaults, Configuration, ProgressSnapshot}
use enterprise_vault_migrati.Contracts.Source.{SourceMailItem}
use enterprise_vault_migrati.Contracts.Documents.{
  TransformedDocument, UploadResult, UploadBatchResult, VerificationResult,
}
use enterprise_vault_migrati.Checkpoint.{CheckpointSnapshot}
use enterprise_vault_migrati.Context.{StepContext, known_metrics, completed_at}
use enterprise_vault_migrati.Runner.Registry.{resolve, index_of}

-- _build_checkpoint_id
unfoldable pub build_checkpoint_id : String → Option String → String
build_checkpoint_id migration_id completed_step =
    migration_id +s ":" +s or_text completed_step "unknown-step"

-- `last_document and its source identifier`
abbrev last_document_id : List TransformedDocument → Option String
last_document_id ds = Option.map (λ (d : TransformedDocument). d.source_identifier) (last? ds)

-- the last of the item results
unfoldable pub last_result_id : UploadBatchResult → Option String
last_result_id u = Option.map (λ (r : UploadResult). r.item_id) (last? u.item_results)

-- the two branches on an upload result
unfoldable pub last_upload_id : Option VerificationResult → Option UploadBatchResult → Option String
unfolding last_result_id
last_upload_id v none = none
last_upload_id none (some u) = last_result_id u
last_upload_id (some v) (some u) =
    or_option (last_document_id u.uploaded_documents) (last_result_id u)

module _ {F : Type 0} where
  -- _resolve_last_processed_item_id
  unfoldable pub resolve_last_processed_item_id : StepContext F → Option String
  unfolding last_upload_id
  resolve_last_processed_item_id c =
      or_option (last_upload_id c.verification_result c.upload_result) (
        or_option
          (elim c.transformation_result [
            | none ↦ none
            | some t ↦ last_document_id t.transformed_documents
          ])
          (elim c.extraction_result [
            | none ↦ none
            | some e ↦
                Option.map (λ (m : SourceMailItem). m.internet_message_id)
                  (last? e.extracted_mail_items)
          ]))

module _ {F : Type 0} (rt : Runtime F) where
  -- _resolve_metrics
  unfoldable pub resolve_metrics : Option (Metrics F) → ℕ → ℕ → Metrics F
  resolve_metrics (some m) started finished =
      let duration = elapsed rt started finished in
      record m {
        duration_seconds = duration;
        throughput_items_per_second = items_per_second rt m.processed_items duration;
        started_at = some started;
        finished_at = some finished;
      }
  resolve_metrics none started finished =
      record (metrics_defaults rt (elapsed rt started finished) rt.zero_float 0 0 none none) {
        started_at = some started;
        finished_at = some finished;
      }

  -- _build_checkpoint_snapshot; `machine` is the runner's state machine
  unfoldable pub build_checkpoint_snapshot : StateMachine → StepContext F → CheckpointSnapshot F
  unfolding resolve_metrics build_checkpoint_id resolve_last_processed_item_id
  build_checkpoint_snapshot machine c =
      let e = c.execution_context in
      let m = or_else (known_metrics c) (resolve_metrics none e.started_at (completed_at e)) in
      record {
        checkpoint_id = build_checkpoint_id e.migration_id e.current_step;
        migration_job_id = e.migration_id;
        last_completed_step = e.current_step;
        last_processed_item_id = resolve_last_processed_item_id c;
        processed_items = m.processed_items;
        successful_items = m.successful_items;
        failed_items = m.failed_items;
        skipped_items = m.skipped_items;
        filtered_archives = m.filtered_archives;
        filtered_items = m.filtered_items;
        uploaded_items = m.uploaded_items;
        verification_failures = m.verification_failures;
        current_state = state_value (or_else e.state machine.current_state);
        created_at = e.started_at;
        updated_at = completed_at e;
        dry_run = e.configuration.dry_run;
        dry_run_items = m.dry_run_items;
        archive_names = e.configuration.archive_names;
        folder_paths = e.configuration.folder_paths;
        start_date = e.configuration.start_date;
        end_date = e.configuration.end_date;
        upload_worker_count = e.configuration.upload_worker_count;
        upload_requests_per_second = e.configuration.upload_requests_per_second;
        throttled_uploads = 0;
        retry_after_count = 0;
        temporary_failures = 0;
        worker_utilization = rt.zero_float;
        version = 1;
      }

  -- _build_checkpoint_metrics
  unfoldable pub build_checkpoint_metrics : CheckpointSnapshot F → ℕ → ℕ → Metrics F
  build_checkpoint_metrics k started finished =
      let duration = elapsed rt started finished in
      record (metrics_defaults rt duration (items_per_second rt k.processed_items duration) 0 0 none
        none) {
          total_items = k.processed_items;
          processed_items = k.processed_items;
          successful_items = k.successful_items;
          failed_items = k.failed_items;
          skipped_items = k.skipped_items;
          filtered_archives = k.filtered_archives;
          filtered_items = k.filtered_items;
          uploaded_items = k.uploaded_items;
          verification_failures = k.verification_failures;
          dry_run_items = k.dry_run_items;
          throttled_uploads = k.throttled_uploads;
          retry_after_count = k.retry_after_count;
          temporary_failures = k.temporary_failures;
          worker_utilization = k.worker_utilization;
          started_at = some started;
          finished_at = some finished;
        }

module _ {F : Type 0} where
  -- _build_checkpoint_progress_snapshot
  unfoldable pub build_checkpoint_progress_snapshot :
      CheckpointSnapshot F → ℕ → ℕ → ProgressSnapshot
  build_checkpoint_progress_snapshot k started updated = record {
    total_items = k.processed_items;
    processed_items = k.processed_items;
    successful_items = k.successful_items;
    failed_items = k.failed_items;
    skipped_items = k.skipped_items;
    current_archive = none;
    current_mailbox = none;
    current_item = k.last_processed_item_id;
    started_at = started;
    last_updated = updated;
  }

  -- _resolve_resume_configuration, by the configuration of the initial context
  unfoldable pub resolve_resume_configuration :
      Option (Configuration F) → CheckpointSnapshot F → Configuration F
  resolve_resume_configuration initial k = record {
    dry_run = k.dry_run || elim initial [ none ↦ false | some c ↦ c.dry_run ];
    archive_names = k.archive_names;
    folder_paths = k.folder_paths;
    start_date = k.start_date;
    end_date = k.end_date;
    upload_worker_count = k.upload_worker_count;
    upload_requests_per_second = k.upload_requests_per_second;
  }

module _ {F : Type 0} (rt : Runtime F) where
  not_registered : String → Attempt F ℕ
  not_registered name = err (
      plain value_error (
        "Cannot resume migration because the checkpoint completed step "
        +s rt.repr name
        +s " is not registered."))

  -- what follows the lookup of the completed step
  unfoldable pub resume_after : String → ℕ → Option ℕ → Attempt F ℕ
  unfolding not_registered
  resume_after name count none = not_registered name
  resume_after name count (some i) =
      if leb count i
      then err
          (plain value_error "Cannot resume migration because the checkpoint is already final.")
      else ok (suc i)

  -- _resolve_resume_index; the runner's steps are the resolved ones
  unfoldable pub resolve_resume_index : List String → Option String → Attempt F ℕ
  unfolding resume_after
  resolve_resume_index steps none = ok 0
  resolve_resume_index steps (some name) =
      resume_after name (length (resolve steps)) (index_of name steps)
