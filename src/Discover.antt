-- ===== src/Discover.antt =====
-- src/migration_engine/steps/discover_archives_step.py. `own` are the step's `_vault_stores`, and
-- `generated` is what its dataset generator gives, if it has one.
pub mod Scope
use enterprise_vault_migrati.Prelude.{
  ℕ, ◌-◌, String, true, Option, none, some, List, [], ◌∷◌, map, length, or_else, text_in, filter_if,
  concat_map,
}
use enterprise_vault_migrati.Runtime.{Runtime, elapsed, items_per_second}
use enterprise_vault_migrati.StateMachine.{MigrationState}
use enterprise_vault_migrati.Contracts.{
  Metrics, metrics_defaults, ProgressSnapshot, ExecutionReport, Configuration, report_defaults,
}
use enterprise_vault_migrati.Contracts.Source.{SourceVaultStore, SourceArchive}
use enterprise_vault_migrati.Contracts.Documents.{ArchiveDiscoveryResult}
use enterprise_vault_migrati.Tracker.{new_tracker, publish}
use enterprise_vault_migrati.Context.{
  StepContext, known_metrics, known_report, completed_at, resolve_state, resolve_machine,
}

-- _resolve_vault_stores
unfoldable pub resolve_vault_stores :
    Option (List SourceVaultStore) → Option (List SourceVaultStore) → List SourceVaultStore
resolve_vault_stores (some stores) generated = stores
resolve_vault_stores none (some stores) = stores
resolve_vault_stores none none = []

-- the names of the archives of all stores
unfoldable pub archive_names_of : List SourceVaultStore → List String
archive_names_of stores =
    concat_map (λ (s : SourceVaultStore). map (λ (a : SourceArchive). a.name) s.archives) stores

-- _build_discovery_result
unfoldable pub build_discovery_result : List SourceVaultStore → ArchiveDiscoveryResult
unfolding archive_names_of
build_discovery_result stores = record {
  vault_store_names = map (λ (s : SourceVaultStore). s.name) stores;
  archive_names = archive_names_of stores;
  vault_store_count = length (map (λ (s : SourceVaultStore). s.name) stores);
  archive_count = length (archive_names_of stores);
}

-- the archive names that the configuration allows
unfoldable pub allowed_names : Option (List String) → List String → List String
allowed_names none names = names
allowed_names (some allowed) names = filter_if (λ n. text_in n allowed) names

-- the discovery result with the allowed archives only
unfoldable pub restricted : Option (List String) → ArchiveDiscoveryResult → ArchiveDiscoveryResult
unfolding allowed_names
restricted allowed d = record d {
  archive_names = allowed_names allowed d.archive_names;
  archive_count = length (allowed_names allowed d.archive_names);
}

-- `filtered_archives`
unfoldable pub filtered_count : Option (List String) → ArchiveDiscoveryResult → ℕ
unfolding allowed_names
filtered_count none d = 0
filtered_count (some allowed) d =
    length d.archive_names - length (allowed_names (some allowed) d.archive_names)

abbrev first? : List String → Option String
first? [] = none
first? (x ∷ xs) = some x

-- _build_snapshot
unfoldable pub build_snapshot : ArchiveDiscoveryResult → ℕ → ℕ → ProgressSnapshot
build_snapshot d started discovered = record {
  total_items = d.archive_count;
  processed_items = d.archive_count;
  successful_items = d.archive_count;
  failed_items = 0;
  skipped_items = 0;
  current_archive = first? d.archive_names;
  current_mailbox = none;
  current_item = none;
  started_at = started;
  last_updated = discovered;
}

module _ {F : Type 0} (rt : Runtime F) where
  -- _resolve_metrics
  unfoldable pub resolve_metrics :
      Option (Metrics F) → ArchiveDiscoveryResult → ℕ → ℕ → ℕ → Metrics F
  resolve_metrics known d filtered started discovered =
      let seconds = elapsed rt started discovered in
      record (or_else known (metrics_defaults rt seconds rt.zero_float 0 0 none none)) {
        duration_seconds = seconds;
        throughput_items_per_second = items_per_second rt d.archive_count seconds;
        total_items = d.archive_count;
        processed_items = d.archive_count;
        successful_items = d.archive_count;
        failed_items = 0;
        skipped_items = 0;
        filtered_archives = filtered;
        filtered_items = 0;
        retried_items = 0;
        uploaded_items = 0;
        verification_failures = 0;
        started_at = some started;
        finished_at = some discovered;
      }

  -- _resolve_report
  unfoldable pub resolve_report :
      Option (ExecutionReport F) → Metrics F → Configuration F → ℕ → ℕ → ExecutionReport F
  resolve_report known m c started discovered =
      let seconds = elapsed rt started discovered in
      elim known [
        | none ↦ report_defaults 1 0 0 seconds true (some m) c
        | some r ↦ record r {
          successful_steps = 1;
          failed_steps = 0;
          skipped_steps = 0;
          duration_seconds = seconds;
          completed = true;
          metrics = some m;
          archive_names = c.archive_names;
          folder_paths = c.folder_paths;
          start_date = c.start_date;
          end_date = c.end_date;
        }
      ]

  -- discover
  unfoldable pub discover :
      Option (List SourceVaultStore)
      → Option (List SourceVaultStore)
      → StepContext F
      → StepContext F
  unfolding resolve_vault_stores build_discovery_result restricted filtered_count build_snapshot
      resolve_metrics resolve_report
  discover own generated c =
      let started = c.execution_context.started_at in
      let discovered = completed_at c.execution_context in
      let configuration = c.execution_context.configuration in
      let stores = resolve_vault_stores own generated in
      let all = build_discovery_result stores in
      let d = restricted configuration.archive_names all in
      let state = resolve_state MigrationState.discovering c.state_machine in
      let metrics =
        resolve_metrics (known_metrics c) d (filtered_count configuration.archive_names all) started
          discovered in
      let snapshot = build_snapshot d started discovered in
      let report = resolve_report (known_report c) metrics configuration started discovered in
      let tracker =
        or_else c.progress_tracker
          (new_tracker snapshot (some metrics) none (some report) (some state)) in
      let e = record c.execution_context {
        current_step = some "DiscoverArchivesStep";
        metrics = some metrics;
        state = some state;
        current_timestamp = some discovered;
      } in
      record c {
        execution_context = e;
        progress_tracker = some (publish e report metrics snapshot state tracker);
        state_machine = resolve_machine MigrationState.discovering c.state_machine;
        execution_report = some report;
        discovery_result = some d;
        vault_stores = some stores;
      }
