-- ===== src/Extract.antt =====
-- src/migration_engine/steps/extract_items_step.py.
pub mod Paths
pub mod Filters
pub mod Selection
pub mod Loops
pub mod Stores
pub mod Traversal
pub mod Archives
pub mod Described
use enterprise_vault_migrati.Prelude.{
  ℕ, ◌+◌, ◌-◌, ◌/◌, String, true, Option, none, some, List, [], length, or_else, text_in, filter_if,
  not, if◌then◌else◌, ltb, sum_by, max,
}
use enterprise_vault_migrati.Runtime.{Runtime, elapsed, items_per_second}
use enterprise_vault_migrati.Errors.{ok, err, Attempt, plain, value_error}
use enterprise_vault_migrati.StateMachine.{MigrationState}
use enterprise_vault_migrati.Dict
use enterprise_vault_migrati.Contracts.{
  Metrics, metrics_defaults, ProgressSnapshot, ExecutionReport, Configuration, report_defaults,
}
use enterprise_vault_migrati.Contracts.Source.{SourceVaultStore, SourceMailItem, SourceAttachment}
use enterprise_vault_migrati.Contracts.Documents.{ArchiveDiscoveryResult, ExtractionResult}
use enterprise_vault_migrati.Tracker.{new_tracker, publish}
use enterprise_vault_migrati.Context.{
  StepContext, known_metrics, known_report, completed_at, resolve_state, resolve_machine,
}
use enterprise_vault_migrati.Discover.{resolve_vault_stores, allowed_names}
use Filters.{mail_item_matches_filters}
use Loops.{select_vault_stores, Extraction, no_extraction, extract_stores}

-- the archives that the configuration of the extraction excludes
unfoldable pub excluded_count : Option (List String) → List String → ℕ
excluded_count none names = 0
excluded_count (some allowed) names = length (filter_if (λ n. not (text_in n allowed)) names)

-- `ExtractionResult(…)`
unfoldable pub extraction_result : Extraction → ExtractionResult
extraction_result x = record {
  discovered_archives = x.discovered_archives;
  extracted_mailboxes = x.extracted_mailboxes;
  extracted_mail_items = x.extracted_mail_items;
  extracted_attachments = x.extracted_attachments;
  total_mailboxes = length x.extracted_mailboxes;
  total_items = length x.extracted_mail_items;
  total_attachments = length x.extracted_attachments;
  unsupported_archives = x.unsupported_archives;
  warnings = x.warnings;
}

-- _build_snapshot
unfoldable pub build_snapshot : Extraction → ExtractionResult → ℕ → ℕ → ProgressSnapshot
build_snapshot x r started finished = record {
  total_items = r.total_items;
  processed_items = r.total_items;
  successful_items = r.total_items;
  failed_items = 0;
  skipped_items = 0;
  current_archive = x.current_archive_name;
  current_mailbox = x.current_mailbox_address;
  current_item = x.current_item_subject;
  started_at = started;
  last_updated = finished;
}

-- the bytes of the items and of their attachments
unfoldable pub processed_bytes : ExtractionResult → ℕ
processed_bytes r =
    sum_by (λ (m : SourceMailItem). m.message_size) r.extracted_mail_items
    + sum_by (λ (a : SourceAttachment). a.size_bytes) r.extracted_attachments

-- the stores of the context, or else those of the step
unfoldable pub stores_to_extract :
    Option (List SourceVaultStore)
    → Option (List SourceVaultStore)
    → Option (List SourceVaultStore)
    → List SourceVaultStore
stores_to_extract (some stores) own generated = stores
stores_to_extract none own generated = resolve_vault_stores own generated

-- `filtered_archives`: what is known already is not lowered
unfoldable pub known_filtered : {F : Type 0} → Option (Metrics F) → ℕ → ℕ
known_filtered none filtered = filtered
known_filtered (some m) filtered = max m.filtered_archives filtered

module _ {F : Type 0} (rt : Runtime F) where
  -- _resolve_metrics
  unfoldable pub resolve_metrics : Option (Metrics F) → ExtractionResult → ℕ → ℕ → ℕ → ℕ → Metrics F
  unfolding known_filtered processed_bytes
  resolve_metrics known r filtered_archives filtered_items started finished =
      let seconds = elapsed rt started finished in
      let items = r.total_items in
      let bytes = processed_bytes r in
      record (or_else known (metrics_defaults rt seconds rt.zero_float 0 0 none none)) {
        duration_seconds = seconds;
        throughput_items_per_second = items_per_second rt items seconds;
        average_item_size = (if ltb 0 items then bytes / items else 0);
        processed_bytes = bytes;
        total_items = items;
        processed_items = items;
        successful_items = items;
        failed_items = 0;
        skipped_items = 0;
        filtered_archives = known_filtered known filtered_archives;
        filtered_items = filtered_items;
        retried_items = 0;
        uploaded_items = 0;
        verification_failures = 0;
        total_bytes = bytes;
        started_at = some started;
        finished_at = some finished;
      }

  -- _resolve_report
  unfoldable pub resolve_report :
      Option (ExecutionReport F)
      → Metrics F
      → Configuration F
      → ℕ
      → ℕ
      → List String
      → ExecutionReport F
  resolve_report known m c started finished warnings =
      let seconds = elapsed rt started finished in
      record (or_else known (report_defaults 1 0 0 seconds true (some m) c)) {
        successful_steps = 1;
        failed_steps = 0;
        skipped_steps = 0;
        duration_seconds = seconds;
        completed = true;
        metrics = some m;
        archive_names = c.archive_names;
        folder_paths = c.folder_paths;
        start_date = c.start_date;
        end_date = c.end_date;
        warnings = warnings;
      }

  -- the loops, for the stores and the archive names that discovery has found
  unfoldable pub extraction_of :
      List SourceVaultStore → ArchiveDiscoveryResult → Configuration F → Extraction
  unfolding extract_stores
  extraction_of selected d c =
      extract_stores (mail_item_matches_filters c) (allowed_names c.archive_names d.archive_names)
        selected no_extraction

  -- what follows the loops
  unfoldable pub finish_extract :
      StepContext F → List SourceVaultStore → ArchiveDiscoveryResult → Extraction → StepContext F
  unfolding excluded_count extraction_result build_snapshot resolve_metrics resolve_report
  finish_extract c selected d x =
      let started = c.execution_context.started_at in
      let finished = completed_at c.execution_context in
      let configuration = c.execution_context.configuration in
      let r = extraction_result x in
      let state = resolve_state MigrationState.extracting c.state_machine in
      let metrics =
        resolve_metrics (known_metrics c) r
          (excluded_count configuration.archive_names d.archive_names)
          (x.source_item_count - x.extracted_item_count) started finished in
      let snapshot = build_snapshot x r started finished in
      let report =
        resolve_report (known_report c) metrics configuration started finished x.warnings in
      let tracker =
        or_else c.progress_tracker
          (new_tracker snapshot (some metrics) none (some report) (some state)) in
      let e = record c.execution_context {
        current_step = some "ExtractItemsStep";
        metrics = some metrics;
        state = some state;
        current_timestamp = some finished;
      } in
      record c {
        execution_context = e;
        progress_tracker = some (publish e report metrics snapshot state tracker);
        state_machine = resolve_machine MigrationState.extracting c.state_machine;
        execution_report = some report;
        vault_stores = some selected;
        extraction_result = some r;
      }

  unfoldable pub extract_discovered :
      List SourceVaultStore
      → StepContext F
      → Option ArchiveDiscoveryResult
      → Attempt F (StepContext F)
  unfolding extraction_of finish_extract select_vault_stores
  extract_discovered stores c none =
      err (plain value_error "Extraction requires archive discovery results")
  extract_discovered stores c (some d) =
      let selected = select_vault_stores stores d.vault_store_names in
      ok (finish_extract c selected d (extraction_of selected d c.execution_context.configuration))

  -- extract
  unfoldable pub extract :
      Option (List SourceVaultStore)
      → Option (List SourceVaultStore)
      → StepContext F
      → Attempt F (StepContext F)
  unfolding stores_to_extract extract_discovered
  extract own generated c =
      extract_discovered (stores_to_extract c.vault_stores own generated) c c.discovery_result
