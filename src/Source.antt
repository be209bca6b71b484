-- ===== src/Source.antt =====
-- src/adapters/source/mock_enterprise_vault_source_adapter.py. Its entities, of src/mock_ev/entities,
-- are read through the contracts of Contracts.Source.
pub mod Streams
use Prim.Native.String.{◌++◌ as ◌+s◌}
use enterprise_vault_migrati.Prelude.{
  String, false, Option, none, some, List, [], ◌∷◌, ◌++◌, map, str_eq, concat_map, if◌then◌else◌,
}
use enterprise_vault_migrati.Contracts.Source.{
  ItemType, SourceVaultStore, SourceArchive, SourceMailbox, SourceJournalArchive, SourceMailItem,
  SourceArchivedFile, SourceAttachment,
}
use enterprise_vault_migrati.Extract.Traversal.{attachments_of}

-- _iter_archives
unfoldable pub iter_archives : List SourceVaultStore → List SourceArchive
iter_archives stores = concat_map (λ (s : SourceVaultStore). s.archives) stores

-- the loop of load_archive
unfoldable pub first_named : String → List SourceArchive → Option SourceArchive
first_named id [] = none
first_named id (a ∷ rest) = if str_eq a.name id then some a else first_named id rest

-- `if not archive.archived_files`: one file for each item of a mailbox
unfoldable pub mail_item_file : SourceArchive → SourceMailbox → SourceMailItem → SourceArchivedFile
mail_item_file a b i = record {
  path = a.name +s "/" +s b.address +s "/" +s i.subject +s ".eml";
  size_bytes = i.message_size;
  checksum = none;
  file_name = none;
  extension = none;
  archived_at = none;
  modified_at = none;
  legal_hold = false;
  legal_hold_policy_id = none;
  source_path = none;
  shortcut = none;
  item_type = ItemType.file;
}

abbrev pub mailbox_items : SourceArchive → List SourceMailItem
mailbox_items a = concat_map (λ (b : SourceMailbox). b.mail_items) a.mailboxes

abbrev pub journal_items : SourceArchive → List SourceMailItem
journal_items a = concat_map (λ (j : SourceJournalArchive). j.mail_items) a.journal_archives

unfoldable pub files_of : SourceArchive → List SourceArchivedFile → List SourceArchivedFile
unfolding mail_item_file
files_of a [] =
    concat_map (λ (b : SourceMailbox). map (mail_item_file a b) b.mail_items) a.mailboxes
files_of a (f ∷ fs) = f ∷ fs

module _ (stores : List SourceVaultStore) where
  unfoldable pub discover_archives : List SourceVaultStore
  discover_archives = stores

  unfoldable pub load_archive : String → Option SourceArchive
  unfolding first_named iter_archives
  load_archive id = first_named id (iter_archives stores)

  unfoldable pub stream_mail_items : String → List SourceMailItem
  unfolding load_archive
  stream_mail_items id = elim (load_archive id) [
    | none ↦ []
    | some a ↦ mailbox_items a ++ journal_items a
  ]

  unfoldable pub stream_archived_files : String → List SourceArchivedFile
  unfolding load_archive files_of
  stream_archived_files id = elim (load_archive id) [
    | none ↦ []
    | some a ↦ files_of a a.archived_files
  ]

  unfoldable pub stream_attachments : String → List SourceAttachment
  unfolding load_archive
  stream_attachments id = elim (load_archive id) [
    | none ↦ []
    | some a ↦ attachments_of (mailbox_items a)
  ]
