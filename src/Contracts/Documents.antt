-- ===== src/Contracts/Documents.antt =====
-- What a stage hands to the next: src/migration_engine/{discovery,extraction,transformation,upload,
-- verification}/*.py and src/application/dto/upload_result.py.
use enterprise_vault_migrati.Prelude.{ℕ, String, Bool, Option, List}
use enterprise_vault_migrati.Contracts.Source.{
  ArchiveType, ItemType, SourceArchive, SourceMailbox, SourceMailItem, SourceAttachment,
}

pub record ArchiveDiscoveryResult : Type 0 where
  pub vault_store_names : List String
  pub archive_names : List String
  pub vault_store_count : ℕ
  pub archive_count : ℕ

pub record ExtractionResult : Type 0 where
  pub discovered_archives : List SourceArchive
  pub extracted_mailboxes : List SourceMailbox
  pub extracted_mail_items : List SourceMailItem
  pub extracted_attachments : List SourceAttachment
  pub total_mailboxes : ℕ
  pub total_items : ℕ
  pub total_attachments : ℕ
  pub unsupported_archives : List SourceArchive
  pub warnings : List String

pub record TransformedDocument : Type 0 where
  pub source_identifier : String
  pub archive_name : String
  pub subject : String
  pub filename : String
  pub content_type : String
  pub size_bytes : ℕ
  pub checksum : String
  pub sender : String
  pub recipients : List String
  pub cc_recipients : List String
  pub bcc_recipients : List String
  pub retention_policy : String
  pub department : String
  pub tags : List String
  pub custom_properties : List (String × String)
  pub attachment_filenames : List String
  pub attachment_checksums : List String
  pub attachment_sizes : List ℕ
  pub created_at : ℕ
  pub modified_at : ℕ
  pub archive_type : ArchiveType
  pub item_type : ItemType
  pub mailbox_address : Option String
  pub folder_path : Option String
  pub source_path : Option String
  pub is_orphaned : Bool
  pub original_owner_identifier : Option String
  pub owner_resolution_status : String
  pub legal_hold : Bool
  pub legal_hold_policy_id : Option String
  pub journal_metadata : List (String × String)

pub record TransformationResult : Type 0 where
  pub transformed_documents : List TransformedDocument
  pub skipped_items : ℕ
  pub failed_items : ℕ
  pub warnings : List String
  pub started_at : Option ℕ
  pub completed_at : Option ℕ
  pub failed_item_identifiers : List String

-- UploadResult; a MigrationItemId is the text of its UUID
pub record UploadResult : Type 0 where
  pub item_id : String
  pub success : Bool
  pub target_identifier : Option String
  pub error_message : Option String
  pub idempotent_replay : Bool
  pub dry_run : Bool

pub record UploadBatchResult : Type 0 where
  pub uploaded_documents : List TransformedDocument
  pub failed_documents : List TransformedDocument
  pub skipped_documents : List TransformedDocument
  pub uploaded_document_ids : List String
  pub item_results : List UploadResult
  pub started_at : Option ℕ
  pub completed_at : Option ℕ

pub record VerificationResult : Type 0 where
  pub verified_document_ids : List String
  pub failed_document_ids : List String
  pub missing_document_ids : List String
  pub checksum_mismatches : List String
  pub metadata_mismatches : List String
  pub verified_count : ℕ
  pub failed_count : ℕ
  pub started_at : Option ℕ
  pub completed_at : Option ℕ
  pub warnings : List String
