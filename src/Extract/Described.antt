-- ===== src/Extract/Described.antt =====
-- The extraction step against a description of its result.
use enterprise_vault_migrati.Prelude.{
  ℕ, ◌+◌, ◌-◌, ◌≡◌, refl, sym, ap, ◌∙◌, Bool, some, Option, List, arith, length, length-filter_if,
  filter_if, concat_map, Some,
}
use enterprise_vault_migrati.Runtime.{Runtime}
use enterprise_vault_migrati.Errors.{ok}
use enterprise_vault_migrati.Contracts.{Metrics, Configuration}
use enterprise_vault_migrati.Contracts.Source.{SourceVaultStore, SourceArchive, SourceMailItem}
use enterprise_vault_migrati.Contracts.Documents.{ArchiveDiscoveryResult, ExtractionResult}
use enterprise_vault_migrati.Context.{StepContext}
use enterprise_vault_migrati.Discover.{allowed_names}
use enterprise_vault_migrati.Extract.Filters.{mail_item_matches_filters}
use enterprise_vault_migrati.Extract.Loops.{no_extraction, select_vault_stores}
use enterprise_vault_migrati.Extract.Traversal.{items_of, attachments_of, warnings_of}
use enterprise_vault_migrati.Extract.Archives.{
  listed, file_archives, mail_archives, archives_of, stores-Adds,
}
use enterprise_vault_migrati.Extract.{
  stores_to_extract, extraction_result, extraction_of, finish_extract, extract_discovered, extract,
  resolve_metrics,
}

-- `r` holds the archives `archives`, the files' among them as unsupported, and of the others all
-- mailboxes and those items that match, with their attachments.
pub record Describes (matches : SourceMailItem → Bool) (archives : List SourceArchive)
    (r : ExtractionResult) : Type 0 where
  pub archives_listed : r.discovered_archives ≡ archives
  pub files_unsupported : r.unsupported_archives ≡ file_archives archives
  pub files_warned : r.warnings ≡ warnings_of (file_archives archives)
  pub mailboxes_listed :
      r.extracted_mailboxes
      ≡ concat_map (λ (a : SourceArchive). a.mailboxes) (mail_archives archives)
  pub items_matching :
      r.extracted_mail_items ≡ filter_if matches (concat_map items_of (mail_archives archives))
  pub attachments_of_items : r.extracted_attachments ≡ attachments_of r.extracted_mail_items
  pub items_counted : r.total_items ≡ length r.extracted_mail_items

-- The archives of the selected stores whose names discovery lists and the configuration allows.
abbrev pub archives_to_extract :
    {F : Type 0}
    → List SourceVaultStore
    → ArchiveDiscoveryResult
    → Configuration F
    → List SourceArchive
archives_to_extract selected d c =
    listed (allowed_names c.archive_names d.archive_names) (archives_of selected)

module _ {F : Type 0} (rt : Runtime F) where
  pub extraction-Describes :
      (selected : List SourceVaultStore) (d : ArchiveDiscoveryResult) (c : Configuration F)
      → Describes
          (mail_item_matches_filters c)
          (archives_to_extract selected d c)
          (extraction_result (extraction_of rt selected d c))
  unfolding extraction_of extraction_result
  extraction-Describes selected d c =
      let h =
        stores-Adds (mail_item_matches_filters c) (allowed_names c.archive_names d.archive_names)
          selected no_extraction in
      record {
        archives_listed = h.archives_added;
        files_unsupported = h.unsupported_added;
        files_warned = h.warned;
        mailboxes_listed = h.mailboxes_added;
        items_matching = h.items_added;
        attachments_of_items = h.attachments_added ∙ ap attachments_of (sym h.items_added);
        items_counted = refl;
      }

  extraction_counts :
      (selected : List SourceVaultStore) (d : ArchiveDiscoveryResult) (c : Configuration F)
      → let x = extraction_of rt selected d c in
        length x.extracted_mail_items + (x.source_item_count - x.extracted_item_count)
        ≡ length (concat_map items_of (mail_archives (archives_to_extract selected d c)))
  unfolding extraction_of
  extraction_counts selected d c =
      let h =
        stores-Adds (mail_item_matches_filters c) (allowed_names c.archive_names d.archive_names)
          selected no_extraction in
      omega (
        arith,
        h.source_counted,
        h.extracted_counted,
        ap length h.items_added,
        length-filter_if (mail_item_matches_filters c)
            (concat_map items_of (mail_archives (archives_to_extract selected d c))),
      )

  resolve_metrics-items :
      (known : Option (Metrics F)) (r : ExtractionResult) (a i from upto : ℕ)
      → ((resolve_metrics rt known r a i from upto).total_items ≡ r.total_items)
        × ((resolve_metrics rt known r a i from upto).filtered_items ≡ i)
  unfolding resolve_metrics
  resolve_metrics-items known r a i from upto = (refl, refl)

  -- `c'` is what the step publishes for the stores `selected` and the discovery `d`: a result as
  -- described, and counts of extracted and filtered items that add up to all items looked at.
  pub record Extracted (selected : List SourceVaultStore) (d : ArchiveDiscoveryResult)
      (c c' : StepContext F) : Type 0 where
    pub result :
        Some
          (Describes
            (mail_item_matches_filters c.execution_context.configuration)
            (archives_to_extract selected d c.execution_context.configuration))
          c'.extraction_result
    pub counts :
        Some
          (λ (m : Metrics F).
            m.total_items + m.filtered_items
            ≡ length (
                concat_map items_of (
                  mail_archives
                    (archives_to_extract selected d c.execution_context.configuration))))
          c'.execution_context.metrics
    pub stores_kept : c'.vault_stores ≡ some selected

  finish_extract-Extracted :
      (c : StepContext F) (selected : List SourceVaultStore) (d : ArchiveDiscoveryResult)
      → Extracted selected d c (
          finish_extract rt c selected d
            (extraction_of rt selected d c.execution_context.configuration))
  unfolding finish_extract
  finish_extract-Extracted c selected d = record {
    result = extraction-Describes selected d c.execution_context.configuration;
    counts = extraction_counts selected d c.execution_context.configuration;
    stores_kept = refl;
  }

  extract_discovered_lem :
      (stores : List SourceVaultStore) (c : StepContext F) {o : Option ArchiveDiscoveryResult}
      (d : ArchiveDiscoveryResult)
      → o ≡ some d
      → let selected = select_vault_stores stores d.vault_store_names in
        extract_discovered rt stores c o
        ≡ ok (
            finish_extract rt c selected d
              (extraction_of rt selected d c.execution_context.configuration))
  unfolding extract_discovered
  extract_discovered_lem stores c d h = rw h refl

  -- With a discovery result the extraction step returns a context, whose result holds the listed and
  -- allowed archives of the selected stores, of these the mail archives' mailboxes and exactly their
  -- matching items in order, the attachments of these, and the file archives as unsupported with a
  -- warning each; the extracted and the filtered items add up to all items of the mail archives.
  pub extract-Extracted :
      (own generated : Option (List SourceVaultStore)) (c : StepContext F)
      (d : ArchiveDiscoveryResult)
      → c.discovery_result ≡ some d
      → let selected =
          select_vault_stores
            (stores_to_extract c.vault_stores own generated)
            d.vault_store_names in
        (c' : StepContext F) × (extract rt own generated c ≡ ok c') × Extracted selected d c c'
  unfolding extract
  extract-Extracted own generated c d h =
      let stores = stores_to_extract c.vault_stores own generated in
      (
        _,
        extract_discovered_lem stores c d h,
        finish_extract-Extracted c (select_vault_stores stores d.vault_store_names) d,
      )
