-- ===== src/Transform/Document.antt =====
-- `_transform_mail_item` and `_derive_department` of
-- src/migration_engine/steps/transform_items_step.py.
use Prim.Native.String.{◌++◌ as ◌+s◌}
use Prim.Native.Char.{code}
use enterprise_vault_migrati.Prelude.{
  ◌+◌, ◌==◌, String, Option, none, some, [], ◌∷◌, map, length, sum_by, or_text, str_eq,
  if◌then◌else◌,
}
use enterprise_vault_migrati.Runtime.{Runtime}
use enterprise_vault_migrati.Contracts.Source.{
  ArchiveType, archive_type_value, SourceArchive, SourceMailItem, SourceAttachment,
}
use enterprise_vault_migrati.Contracts.Documents.{TransformedDocument}

-- text.split("@", maxsplit=1)[1], if "@" is in the text
unfoldable pub after_at : String → Option String
after_at String.[] = none
after_at (String.◌∷◌ c s) = let rest = after_at s in if code c == b'@' then some s else rest

-- text.split(".", maxsplit=1)[0]
unfoldable pub before_dot : String → String
before_dot String.[] = ""
before_dot (String.◌∷◌ c s) =
    let rest = before_dot s in if code c == b'.' then "" else String.◌∷◌ c rest

unfoldable pub department_of_type : ArchiveType → String
department_of_type ArchiveType.journal = "Journal"
department_of_type ArchiveType.fsa = "FileSystem"
department_of_type _ = "Unknown"

-- `a or b` of two optional texts
abbrev or_text_option : Option String → Option String → Option String
or_text_option none d = d
or_text_option (some s) d = if str_eq s "" then d else some s

module _ {F : Type 0} (rt : Runtime F) where
  domain_department : Option String → String
  unfolding before_dot
  domain_department none = "Unknown"
  domain_department (some domain) = rt.title (before_dot domain)

  -- _derive_department
  unfoldable pub derive_department : Option String → ArchiveType → String
  unfolding after_at domain_department department_of_type
  derive_department none kind = department_of_type kind
  derive_department (some address) kind = domain_department (after_at address)

  -- _transform_mail_item; the rehydrated content is not used
  unfoldable pub transform_mail_item :
      SourceArchive → Option String → SourceMailItem → TransformedDocument
  unfolding derive_department
  transform_mail_item a address m = record {
    source_identifier = m.internet_message_id;
    archive_name = a.name;
    subject = m.subject;
    filename = m.subject +s ".eml";
    content_type = "message/rfc822";
    size_bytes = m.message_size + sum_by (λ (x : SourceAttachment). x.size_bytes) m.attachments;
    checksum = m.internet_message_id;
    sender = m.sender;
    recipients = m.recipients;
    cc_recipients = m.cc_recipients;
    bcc_recipients = m.bcc_recipients;
    retention_policy = m.retention_policy.name;
    department = derive_department address a.archive_type;
    tags = a.name ∷ or_text address (archive_type_value a.archive_type) ∷ m.conversation_id ∷ [];
    custom_properties =
        ("internet_message_id", m.internet_message_id)
        ∷ ("message_size", rt.decimal m.message_size)
        ∷ ("attachment_count", rt.decimal (length m.attachments))
        ∷ [];
    attachment_filenames = map (λ (x : SourceAttachment). x.filename) m.attachments;
    attachment_checksums = map (λ (x : SourceAttachment). x.checksum) m.attachments;
    attachment_sizes = map (λ (x : SourceAttachment). x.size_bytes) m.attachments;
    created_at = m.sent_at;
    modified_at = m.modified_at;
    archive_type = a.archive_type;
    item_type = m.item_type;
    mailbox_address = address;
    folder_path = some m.folder_path;
    source_path = or_text_option m.source_path a.source_path;
    is_orphaned = a.is_orphaned;
    original_owner_identifier = a.original_owner_identifier;
    owner_resolution_status = a.owner_resolution_status;
    legal_hold = m.legal_hold;
    legal_hold_policy_id = m.legal_hold_policy_id;
    journal_metadata = m.journal_metadata;
  }
