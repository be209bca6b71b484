-- ===== src/Reporting/Breakdown.antt =====
-- src/migration_engine/reporting/error_breakdown.py.
use enterprise_vault_migrati.Prelude.{
  pos, ℕ, String, Bool, true, false, Option, none, some, List, [], ◌∷◌, ◌++◌, ◌||◌, not,
  if◌then◌else◌, str_eq, or_text, or_option, any_of, map,
}
use mathlib.Core.Option
use enterprise_vault_migrati.Dict
use enterprise_vault_migrati.Dict.{Dict}
use enterprise_vault_migrati.Contracts.{ErrorBreakdownEntry}
use enterprise_vault_migrati.Contracts.Source.{
  SourceVaultStore, SourceArchive, SourceMailbox, SourceJournalArchive, SourceMailItem,
  item_type_value,
}
use enterprise_vault_migrati.Contracts.Documents.{
  TransformedDocument, TransformationResult, VerificationResult,
}
use enterprise_vault_migrati.Context.{StepContext}

-- The reasons that `record` gives.
pub data Reason : Type 0 where
  failed missing checksum metadata : Reason

-- A set of reasons, as the four answers to `in`.
pub record Reasons : Type 0 where
  pub has_failed : Bool
  pub has_missing : Bool
  pub has_checksum : Bool
  pub has_metadata : Bool

abbrev pub no_reasons : Reasons
no_reasons = record {
  has_failed = false;
  has_missing = false;
  has_checksum = false;
  has_metadata = false;
}

unfoldable pub add_reason : Reason → Reasons → Reasons
add_reason failed r = record r { has_failed = true }
add_reason missing r = record r { has_missing = true }
add_reason checksum r = record r { has_checksum = true }
add_reason metadata r = record r { has_metadata = true }

-- _resolve_verification_failure
unfoldable pub resolve_verification_failure : Reasons → String × String
resolve_verification_failure r =
    if r.has_missing
    then (if not (r.has_failed || r.has_checksum || r.has_metadata)
        then ("missing_document", "Target document was missing during verification.")
        else ("verification_failed", "Verification failed due to a missing document."))
    else if r.has_checksum
    then (if not (r.has_failed || r.has_metadata)
        then ("checksum_mismatch", "Target document checksum mismatched during verification.")
        else ("verification_failed", "Verification failed due to a checksum mismatch."))
    else if r.has_metadata
    then (if not r.has_failed
        then ("metadata_mismatch", "Target document metadata mismatched during verification.")
        else ("verification_failed", "Verification failed due to a metadata mismatch."))
    else ("verification_failed", "Verification failed during target comparison.")

-- the dictionary `failure_reasons`, whose keys in insertion order are `ordered_ids`
unfoldable pub recorded : Option Reasons → Reasons
recorded none = no_reasons
recorded (some r) = r

unfoldable pub record_reason : String → Reason → Dict Reasons → Dict Reasons
unfolding add_reason recorded
record_reason k reason d = Dict.put k (add_reason reason (recorded (Dict.get k d))) d

unfoldable pub record_all : Reason → List String → Dict Reasons → Dict Reasons
unfolding record_reason
record_all reason [] d = d
record_all reason (k ∷ ks) d = record_all reason ks (record_reason k reason d)

-- the four loops that record the reasons of a verification
unfoldable pub failure_reasons : VerificationResult → Dict Reasons
unfolding record_all
failure_reasons v = record_all metadata v.metadata_mismatches (
    record_all checksum v.checksum_mismatches
      (record_all missing v.missing_document_ids (record_all failed v.failed_document_ids [])))

-- `{document.source_identifier: document for …}`
unfoldable pub transformed_document_map : Option TransformationResult → Dict TransformedDocument
transformed_document_map none = []
transformed_document_map (some t) =
    Dict.put_all
      (map (λ (d : TransformedDocument). (d.source_identifier, d)) t.transformed_documents) []

-- an entry for one item of a stage
unfoldable pub entry :
    String → String → String → String → Option String → Option String → String → ErrorBreakdownEntry
entry k stage code message archive item_type final_status = record {
  source_identifier = some k;
  stage = stage;
  category = stage;
  code = code;
  message = message;
  retryable = false;
  attempt_count = pos 1;
  final_status = final_status;
  archive_identifier = archive;
  item_type = item_type;
}

unfoldable pub verification_entry :
    Dict TransformedDocument → String → String × Reasons → ErrorBreakdownEntry
unfolding resolve_verification_failure entry
verification_entry documents final_status (k, reasons) =
    let document = Dict.get k documents in
    let (code, message) = resolve_verification_failure reasons in
    entry k "verification" code message
      (Option.map (λ (d : TransformedDocument). d.archive_name) document)
      (Option.map (λ (d : TransformedDocument). item_type_value d.item_type) document) final_status

-- _find_source_mail_item
unfoldable pub find_mail_item : String → List SourceMailItem → Option SourceMailItem
find_mail_item k [] = none
find_mail_item k (m ∷ ms) = if str_eq m.internet_message_id k then some m else find_mail_item k ms

-- an item that is the same object has the same message identifier
unfoldable pub has_mail_item : String → List SourceMailItem → Bool
has_mail_item k ms = any_of (λ (m : SourceMailItem). str_eq m.internet_message_id k) ms

unfoldable pub archive_has : String → SourceArchive → Bool
unfolding has_mail_item
archive_has k a =
    any_of (λ (b : SourceMailbox). has_mail_item k b.mail_items) a.mailboxes
    || any_of (λ (j : SourceJournalArchive). has_mail_item k j.mail_items) a.journal_archives

unfoldable pub find_archive : String → List SourceArchive → Option String
unfolding archive_has
find_archive k [] = none
find_archive k (a ∷ rest) = if archive_has k a then some a.name else find_archive k rest

unfoldable pub find_in_stores : String → List SourceVaultStore → Option String
unfolding find_archive
find_in_stores k [] = none
find_in_stores k (s ∷ ss) = or_option (find_archive k s.archives) (find_in_stores k ss)

-- _resolve_source_mail_item_metadata
unfoldable pub source_metadata :
    Option (List SourceVaultStore) → Option SourceMailItem → Option String × Option String
unfolding find_in_stores
source_metadata stores none = (none, none)
source_metadata none (some m) = (none, some (item_type_value m.item_type))
source_metadata (some ss) (some m) =
    (find_in_stores m.internet_message_id ss, some (item_type_value m.item_type))

module _ {F : Type 0} (c : StepContext F) (final_status : String) where
  extracted_mail_items : List SourceMailItem
  extracted_mail_items = elim c.extraction_result [ none ↦ [] | some e ↦ e.extracted_mail_items ]

  transformation_entry : String → ErrorBreakdownEntry
  transformation_entry k =
      let (archive, item_type) =
        source_metadata c.vault_stores (find_mail_item k extracted_mail_items) in
      entry k "transformation" "transformation_failed" "Transformation failed for a source item."
        archive item_type final_status

  -- _build_transformation_entries
  unfoldable pub build_transformation_entries : List ErrorBreakdownEntry
  unfolding source_metadata find_mail_item extracted_mail_items transformation_entry entry
  build_transformation_entries = elim c.transformation_result [
    | none ↦ []
    | some t ↦ map transformation_entry t.failed_item_identifiers
  ]

  upload_entry : TransformedDocument → ErrorBreakdownEntry
  upload_entry d =
      entry d.source_identifier "upload" "upload_failed" "Upload failed for a transformed document."
        (some d.archive_name) (some (item_type_value d.item_type)) final_status

  -- _build_upload_entries
  unfoldable pub build_upload_entries : List ErrorBreakdownEntry
  unfolding upload_entry entry
  build_upload_entries = elim c.upload_result [
    | none ↦ []
    | some u ↦ map upload_entry u.failed_documents
  ]

  -- _build_verification_entries
  unfoldable pub build_verification_entries : List ErrorBreakdownEntry
  unfolding verification_entry failure_reasons transformed_document_map
  build_verification_entries = elim c.verification_result [
    | none ↦ []
    | some v ↦
        map (verification_entry (transformed_document_map c.transformation_result) final_status)
          (failure_reasons v)
  ]

  -- _build_pipeline_entry
  unfoldable pub build_pipeline_entry : String → Bool → ℕ → Option String → ErrorBreakdownEntry
  build_pipeline_entry failed_step_name retryable attempt_count failure_message = record {
    source_identifier = none;
    stage = failed_step_name;
    category = "pipeline";
    code = "step_failed";
    message = or_text failure_message "Pipeline step failed.";
    retryable = retryable;
    attempt_count = pos attempt_count;
    final_status = final_status;
    archive_identifier = elim c.progress_tracker [
      | none ↦ none
      | some t ↦ t.current_snapshot.current_archive
    ];
    item_type = none;
  }

  -- the fallback to one entry for the step
  unfoldable pub with_fallback :
      Option String → Bool → ℕ → Option String → List ErrorBreakdownEntry → List ErrorBreakdownEntry
  with_fallback (some step) retryable attempts message [] =
      build_pipeline_entry step retryable attempts message ∷ []
  with_fallback _ _ _ _ entries = entries

  -- build_error_breakdown_entries
  unfoldable pub build_error_breakdown_entries :
      Option String → Bool → ℕ → Option String → List ErrorBreakdownEntry
  unfolding build_transformation_entries build_upload_entries build_verification_entries
      with_fallback build_pipeline_entry
  build_error_breakdown_entries failed_step_name retryable attempt_count failure_message =
      with_fallback failed_step_name retryable attempt_count failure_message
        (build_transformation_entries ++ build_upload_entries ++ build_verification_entries)
