-- ===== src/Transform.antt =====
-- src/migration_engine/steps/transform_items_step.py. `own_rehydrator` is the step's
-- `_sis_rehydrator`; the step returns the context and the rehydrator as it leaves it.
pub mod Document
pub mod Loop
pub mod Outcome
pub mod Publication
pub mod Places
use enterprise_vault_migrati.Prelude.{
  ℕ, ◌+◌, ◌/◌, ◌==◌, String, Bool, Option, none, some, List, [], ◌++◌, length, or_else, text_in,
  filter_if, not, if◌then◌else◌, ltb, sum_by,
}
use enterprise_vault_migrati.Runtime.{Runtime, elapsed, items_per_second}
use enterprise_vault_migrati.Errors.{ok, err, Attempt, plain, value_error, ◌>>=◌}
use enterprise_vault_migrati.StateMachine.{MigrationState}
use enterprise_vault_migrati.Contracts.{
  Metrics, metrics_defaults, ProgressSnapshot, ExecutionReport, Configuration, report_defaults,
}
use enterprise_vault_migrati.Contracts.Source.{SourceVaultStore}
use enterprise_vault_migrati.Contracts.Documents.{
  ArchiveDiscoveryResult, ExtractionResult, TransformedDocument, TransformationResult,
}
use enterprise_vault_migrati.Rehydration.{Rehydrator, new_rehydrator}
use enterprise_vault_migrati.Tracker.{new_tracker, publish}
use enterprise_vault_migrati.Context.{
  StepContext, known_metrics, known_report, completed_at, resolve_state, resolve_machine,
}
use enterprise_vault_migrati.Extract.{stores_to_extract}
use enterprise_vault_migrati.Extract.Loops.{select_vault_stores}
use Loop.{Transformation, nothing_transformed, transform_items}

-- `TransformationResult(…)`
unfoldable pub transformation_result : Transformation → ℕ → ℕ → TransformationResult
transformation_result t started completed = record {
  transformed_documents = t.transformed_documents;
  skipped_items = 0;
  failed_items = t.failed_items;
  warnings = t.warnings;
  started_at = some started;
  completed_at = some completed;
  failed_item_identifiers = t.failed_item_identifiers;
}

-- _build_snapshot, where nothing is skipped
unfoldable pub build_snapshot : Transformation → ℕ → ℕ → ProgressSnapshot
build_snapshot t started completed = record {
  total_items = length t.transformed_documents + 0 + t.failed_items;
  processed_items = length t.transformed_documents + 0 + t.failed_items;
  successful_items = length t.transformed_documents;
  failed_items = t.failed_items;
  skipped_items = 0;
  current_archive = t.current_archive_name;
  current_mailbox = t.current_mailbox_address;
  current_item = t.current_item_name;
  started_at = started;
  last_updated = completed;
}

-- the warnings of the report before, then those that it does not have
unfoldable pub merged_warnings :
    {F : Type 0} → Option (ExecutionReport F) → List String → List String
merged_warnings none warnings = warnings
merged_warnings (some r) warnings =
    r.warnings ++ filter_if (λ w. not (text_in w r.warnings)) warnings

-- `context.discovery_result.vault_store_names if context.discovery_result else ()`
unfoldable pub discovered_names : Option ArchiveDiscoveryResult → List String
discovered_names none = []
discovered_names (some d) = d.vault_store_names

module _ {F : Type 0} (rt : Runtime F) where
  -- _resolve_metrics
  unfoldable pub resolve_metrics : Option (Metrics F) → Transformation → ℕ → ℕ → Metrics F
  resolve_metrics known t started completed =
      let seconds = elapsed rt started completed in
      let items = length t.transformed_documents + 0 + t.failed_items in
      let bytes = sum_by (λ (d : TransformedDocument). d.size_bytes) t.transformed_documents in
      record (or_else known (metrics_defaults rt seconds rt.zero_float 0 0 none none)) {
        duration_seconds = seconds;
        throughput_items_per_second = items_per_second rt items seconds;
        average_item_size = (if ltb 0 items then bytes / items else 0);
        processed_bytes = bytes;
        total_items = items;
        processed_items = items;
        successful_items = length t.transformed_documents;
        failed_items = t.failed_items;
        skipped_items = 0;
        retried_items = 0;
        uploaded_items = 0;
        verification_failures = 0;
        rehydrated_items = t.rehydrator.rehydrated_items;
        rehydration_failures = t.rehydrator.rehydration_failures;
        rehydrated_bytes = t.rehydrator.rehydrated_bytes;
        sis_cache_hits = t.rehydrator.cache_hits;
        sis_cache_misses = t.rehydrator.cache_misses;
        total_bytes = bytes;
        started_at = some started;
        finished_at = some completed;
      }

  -- _resolve_report
  unfoldable pub resolve_report :
      Option (ExecutionReport F)
      → Metrics F
      → Configuration F
      → ℕ
      → ℕ
      → Bool
      → List String
      → ExecutionReport F
  unfolding merged_warnings
  resolve_report known m c started finished completed warnings =
      let seconds = elapsed rt started finished in
      record (or_else known (report_defaults 0 0 0 seconds completed (some m) c)) {
        successful_steps = (if completed then 1 else 0);
        failed_steps = (if completed then 0 else 1);
        skipped_steps = 0;
        duration_seconds = seconds;
        completed = completed;
        warnings = merged_warnings known warnings;
        metrics = some m;
        archive_names = c.archive_names;
        folder_paths = c.folder_paths;
        start_date = c.start_date;
        end_date = c.end_date;
      }

  -- what follows the loop
  unfoldable pub finish_transform :
      StepContext F → List SourceVaultStore → Transformation → StepContext F
  unfolding transformation_result build_snapshot resolve_metrics resolve_report
  finish_transform c selected t =
      let started = c.execution_context.started_at in
      let completed = completed_at c.execution_context in
      let configuration = c.execution_context.configuration in
      let state = resolve_state MigrationState.transforming c.state_machine in
      let metrics = resolve_metrics (known_metrics c) t started completed in
      let snapshot = build_snapshot t started completed in
      let report =
        resolve_report (known_report c) metrics configuration started completed
          (t.failed_items == 0) t.warnings in
      let tracker =
        or_else c.progress_tracker
          (new_tracker snapshot (some metrics) none (some report) (some state)) in
      let e = record c.execution_context {
        current_step = some "TransformItemsStep";
        metrics = some metrics;
        state = some state;
        current_timestamp = some completed;
      } in
      record c {
        execution_context = e;
        progress_tracker = some (publish e report metrics snapshot state tracker);
        state_machine = resolve_machine MigrationState.transforming c.state_machine;
        execution_report = some report;
        vault_stores = some selected;
        transformation_result = some (transformation_result t started completed);
      }

  -- the loop over what was extracted, and what follows
  unfoldable pub transform_extracted :
      List SourceVaultStore
      → Rehydrator
      → StepContext F
      → Option ExtractionResult
      → Attempt F (StepContext F × Rehydrator)
  unfolding finish_transform transform_items
  transform_extracted selected r c none =
      err (plain value_error "Transformation requires extraction results")
  transform_extracted selected r c (some x) =
      transform_items rt selected c.execution_context.started_at (completed_at c.execution_context)
        x.extracted_mail_items (nothing_transformed r)
      >>= λ t. ok (finish_transform c selected t, t.rehydrator)

  -- transform
  unfoldable pub transform :
      Option (List SourceVaultStore)
      → Option (List SourceVaultStore)
      → Option Rehydrator
      → StepContext F
      → Attempt F (StepContext F × Rehydrator)
  unfolding stores_to_extract select_vault_stores discovered_names transform_extracted
  transform own generated own_rehydrator c =
      transform_extracted
        (select_vault_stores (stores_to_extract c.vault_stores own generated)
          (discovered_names c.discovery_result))
        (or_else own_rehydrator new_rehydrator) c c.extraction_result
