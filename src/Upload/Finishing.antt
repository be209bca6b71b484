-- ===== src/Upload/Finishing.antt =====
-- upload_items_step.py: the snapshot, the report and the tracker that a finished batch leaves in the
-- context.
use mathlib.Core.Option
use enterprise_vault_migrati.Prelude.{
  ℕ, ◌+◌, Bool, Option, none, some, List, if◌then◌else◌, length, or_else, is_empty, last?,
}
use enterprise_vault_migrati.Runtime.{Runtime, elapsed}
use enterprise_vault_migrati.StateMachine.{MigrationState}
use enterprise_vault_migrati.Contracts.{
  Metrics as StepMetrics, ProgressSnapshot, ExecutionReport, Configuration, report_defaults,
}
use enterprise_vault_migrati.Contracts.Documents.{TransformedDocument, UploadBatchResult}
use enterprise_vault_migrati.Tracker.{new_tracker, publish}
use enterprise_vault_migrati.Context.{
  StepContext, known_metrics, known_report, completed_at, resolve_state, resolve_machine,
}
use enterprise_vault_migrati.Upload.Metrics.{resolve_metrics}
use enterprise_vault_migrati.Upload.Emission.{Batch}

module _ {F : Type 0} (rt : Runtime F) where
  -- _build_snapshot
  unfoldable pub build_snapshot :
      UploadBatchResult → ℕ → ℕ → Option TransformedDocument → ProgressSnapshot
  build_snapshot u started completed current =
      let total =
        length u.uploaded_documents + length u.failed_documents + length u.skipped_documents in
      record {
        total_items = total;
        processed_items = total;
        successful_items = length u.uploaded_documents;
        failed_items = length u.failed_documents;
        skipped_items = length u.skipped_documents;
        current_archive = Option.map (λ (d : TransformedDocument). d.archive_name) current;
        current_mailbox = Option.bind current (λ (d : TransformedDocument). d.mailbox_address);
        current_item = Option.map (λ (d : TransformedDocument). d.filename) current;
        started_at = started;
        last_updated = completed;
      }

  -- _resolve_report
  unfoldable pub resolve_report :
      Option (ExecutionReport F)
      → StepMetrics F
      → UploadBatchResult
      → Configuration F
      → ℕ
      → ℕ
      → Bool
      → ExecutionReport F
  resolve_report known metrics u c started finished completed =
      let duration = elapsed rt started finished in
      let successful : ℕ = if completed then 1 else 0 in
      let failed : ℕ = if completed then 0 else 1 in
      let skipped = length u.skipped_documents in
      elim known [
        | none ↦ report_defaults successful failed skipped duration completed (some metrics) c
        | some r ↦ record r {
          successful_steps = successful;
          failed_steps = failed;
          skipped_steps = skipped;
          duration_seconds = duration;
          completed = completed;
          metrics = some metrics;
          archive_names = c.archive_names;
          folder_paths = c.folder_paths;
          start_date = c.start_date;
          end_date = c.end_date;
        }
      ]

  -- `upload_result = UploadBatchResult(…)`
  unfoldable pub batch_result : StepContext F → Batch → UploadBatchResult
  batch_result c b = record {
    uploaded_documents = b.uploaded_documents;
    failed_documents = b.failed_documents;
    skipped_documents = b.skipped_documents;
    uploaded_document_ids = b.uploaded_document_ids;
    item_results = b.item_results;
    started_at = some c.execution_context.started_at;
    completed_at = some (completed_at c.execution_context);
  }

  -- from `upload_result = …` to the end of `_run_upload`
  unfoldable pub finish_upload : StepContext F → List TransformedDocument → Batch → StepContext F
  unfolding build_snapshot resolve_report batch_result
  finish_upload c documents b =
      let started = c.execution_context.started_at in
      let finished = completed_at c.execution_context in
      let u = batch_result c b in
      let state = resolve_state MigrationState.uploading c.state_machine in
      let metrics =
        resolve_metrics rt (known_metrics c) u c.execution_context.configuration started finished in
      let snapshot = build_snapshot u started finished (last? documents) in
      let completed = is_empty b.failed_documents in
      let report =
        resolve_report (known_report c) metrics u c.execution_context.configuration started finished
          completed in
      let tracker =
        or_else c.progress_tracker
          (new_tracker snapshot (some metrics) none (some report) (some state)) in
      let e = record c.execution_context {
        current_step = some "UploadItemsStep";
        metrics = some metrics;
        state = some state;
        current_timestamp = some finished;
      } in
      record c {
        execution_context = e;
        progress_tracker = some (publish e report metrics snapshot state tracker);
        state_machine = resolve_machine MigrationState.uploading c.state_machine;
        execution_report = some report;
        upload_result = some u;
      }
