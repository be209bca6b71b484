-- ===== src/Contracts/Source.antt =====
-- src/migration_engine/contracts/source_models.py and the enums of src/domain/enums that it uses.
-- `bytes` is a list of numbers below 256.
use enterprise_vault_migrati.Prelude.{ℕ, String, Bool, Option, List}

-- ArchiveType and ItemType
pub data ArchiveType : Type 0 where
  mailbox journal fsa sharepoint : ArchiveType

pub data ItemType : Type 0 where
  email attachment file folder journal_item : ItemType

unfoldable pub archive_type_value : ArchiveType → String
archive_type_value ArchiveType.mailbox = "mailbox"
archive_type_value ArchiveType.journal = "journal"
archive_type_value ArchiveType.fsa = "fsa"
archive_type_value ArchiveType.sharepoint = "sharepoint"

unfoldable pub item_type_value : ItemType → String
item_type_value ItemType.email = "email"
item_type_value ItemType.attachment = "attachment"
item_type_value ItemType.file = "file"
item_type_value ItemType.folder = "folder"
item_type_value ItemType.journal_item = "journal"

-- A size that the source reports may be negative; `minus n` is -(n + 1).
pub data ReportedSize : Type 0 where
  bytes : ℕ → ReportedSize
  minus : ℕ → ReportedSize

pub record SourceRetentionPolicy : Type 0 where
  pub name : String
  pub retention_days : ℕ
  pub classification : String

pub record SourceAttachment : Type 0 where
  pub filename : String
  pub extension : String
  pub mime_type : String
  pub size_bytes : ℕ
  pub checksum : String

pub record SourceContentPart : Type 0 where
  pub part_id : String
  pub data_ref : String
  pub content : List ℕ
  pub size_bytes : ReportedSize
  pub sha256 : String

pub record SourceShortcut : Type 0 where
  pub target_path : String
  pub description : String
  pub shortcut_id : String
  pub original_source_item_id : String
  pub archive_id : String
  pub original_path : String
  pub created_at : Option ℕ
  pub archived_content_reference : Option String
  pub status : String

pub record SourceArchivedFile : Type 0 where
  pub path : String
  pub size_bytes : ℕ
  pub checksum : Option String
  pub file_name : Option String
  pub extension : Option String
  pub archived_at : Option ℕ
  pub modified_at : Option ℕ
  pub legal_hold : Bool
  pub legal_hold_policy_id : Option String
  pub source_path : Option String
  pub shortcut : Option SourceShortcut
  pub item_type : ItemType

pub record SourceMailItem : Type 0 where
  pub subject : String
  pub sender : String
  pub body : String
  pub received_at : ℕ
  pub sent_at : ℕ
  pub modified_at : ℕ
  pub internet_message_id : String
  pub conversation_id : String
  pub message_size : ℕ
  pub item_type : ItemType
  pub retention_policy : SourceRetentionPolicy
  pub recipients : List String
  pub cc_recipients : List String
  pub bcc_recipients : List String
  pub attachments : List SourceAttachment
  pub content_parts : List SourceContentPart
  pub folder_path : String
  pub legal_hold : Bool
  pub legal_hold_policy_id : Option String
  pub journal_metadata : List (String × String)
  pub source_path : Option String

pub record SourceMailbox : Type 0 where
  pub address : String
  pub mail_items : List SourceMailItem

pub record SourceJournalArchive : Type 0 where
  pub name : String
  pub mail_items : List SourceMailItem

pub record SourceArchive : Type 0 where
  pub name : String
  pub archive_type : ArchiveType
  pub is_orphaned : Bool
  pub original_owner_identifier : Option String
  pub owner_resolution_status : String
  pub mailboxes : List SourceMailbox
  pub journal_archives : List SourceJournalArchive
  pub archived_files : List SourceArchivedFile
  pub shortcuts : List SourceShortcut
  pub source_path : Option String

pub record SourceVaultStore : Type 0 where
  pub name : String
  pub archives : List SourceArchive
