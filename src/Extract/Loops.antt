-- ===== src/Extract/Loops.antt =====
-- The loops of src/migration_engine/steps/extract_items_step.py over stores, archives and items.
use Prim.Native.String.{◌++◌ as ◌+s◌}
use enterprise_vault_migrati.Prelude.{
  ℕ, ◌+◌, String, Bool, true, false, Option, none, some, List, [], ◌∷◌, ◌++◌, map, length, text_in,
  filter_if, not, if◌then◌else◌,
}
use enterprise_vault_migrati.Dict
use enterprise_vault_migrati.Contracts.Source.{
  ArchiveType, archive_type_value, SourceVaultStore, SourceArchive, SourceMailbox,
  SourceJournalArchive, SourceMailItem, SourceAttachment,
}

-- a store that is found goes in front
abbrev pub found_first : Option SourceVaultStore → List SourceVaultStore → List SourceVaultStore
found_first none rest = rest
found_first (some s) rest = s ∷ rest

-- `[d[name] for name in names if name in d]`
unfoldable pub pick_stores : List String → Dict.Dict SourceVaultStore → List SourceVaultStore
pick_stores [] d = []
pick_stores (n ∷ ns) d = found_first (Dict.get n d) (pick_stores ns d)

-- `{store.name: store for store in stores}`
unfoldable pub stores_by_name : List SourceVaultStore → Dict.Dict SourceVaultStore
unfolding Dict.put_all
stores_by_name stores = Dict.put_all (map (λ (s : SourceVaultStore). (s.name, s)) stores) []

-- _select_vault_stores, which the transformation step repeats
unfoldable pub select_vault_stores : List SourceVaultStore → List String → List SourceVaultStore
unfolding pick_stores stores_by_name
select_vault_stores stores [] = stores
select_vault_stores stores (n ∷ ns) = pick_stores (n ∷ ns) (stores_by_name stores)

-- The variables of the loops.
pub record Extraction : Type 0 where
  pub discovered_archives : List SourceArchive
  pub extracted_mailboxes : List SourceMailbox
  pub extracted_mail_items : List SourceMailItem
  pub extracted_attachments : List SourceAttachment
  pub unsupported_archives : List SourceArchive
  pub warnings : List String
  pub current_archive_name : Option String
  pub current_mailbox_address : Option String
  pub current_item_subject : Option String
  pub source_item_count : ℕ
  pub extracted_item_count : ℕ

abbrev pub no_extraction : Extraction
no_extraction = record {
  discovered_archives = [];
  extracted_mailboxes = [];
  extracted_mail_items = [];
  extracted_attachments = [];
  unsupported_archives = [];
  warnings = [];
  current_archive_name = none;
  current_mailbox_address = none;
  current_item_subject = none;
  source_item_count = 0;
  extracted_item_count = 0;
}

-- the body of the loops over items
unfoldable pub extract_item : SourceMailItem → Extraction → Extraction
extract_item m x = record x {
  extracted_mail_items = x.extracted_mail_items ++ m ∷ [];
  extracted_attachments = x.extracted_attachments ++ m.attachments;
  current_item_subject = some m.subject;
  extracted_item_count = x.extracted_item_count + 1;
}

unfoldable pub extract_items : List SourceMailItem → Extraction → Extraction
unfolding extract_item
extract_items [] x = x
extract_items (m ∷ ms) x = extract_items ms (extract_item m x)

-- an archive that is listed: first noted, then skipped if it is of files
unfoldable pub note_archive : SourceArchive → Extraction → Extraction
note_archive a x = record x {
  discovered_archives = x.discovered_archives ++ a ∷ [];
  current_archive_name = some a.name;
}

unfoldable pub is_fsa : ArchiveType → Bool
is_fsa ArchiveType.fsa = true
is_fsa _ = false

unfoldable pub unsupported : SourceArchive → Extraction → Extraction
unsupported a x = record x {
  unsupported_archives = x.unsupported_archives ++ a ∷ [];
  warnings = x.warnings ++ ("Unsupported archive type: " +s archive_type_value a.archive_type) ∷ [];
}

module _ (matches : SourceMailItem → Bool) where
  -- for mailbox in archive.mailboxes
  unfoldable pub extract_mailboxes : List SourceMailbox → Extraction → Extraction
  unfolding extract_items
  extract_mailboxes [] x = x
  extract_mailboxes (b ∷ bs) x = extract_mailboxes bs (
      extract_items (filter_if matches b.mail_items) (record x {
        source_item_count = x.source_item_count + length b.mail_items;
        extracted_mailboxes = x.extracted_mailboxes ++ b ∷ [];
        current_mailbox_address = some b.address;
      }))

  -- for mail_item in journal_archive.mail_items, with the `continue`
  unfoldable pub extract_matching : List SourceMailItem → Extraction → Extraction
  unfolding extract_item
  extract_matching [] x = x
  extract_matching (m ∷ ms) x =
      extract_matching ms (if not (matches m) then x else extract_item m x)

  -- for journal_archive in archive.journal_archives
  unfoldable pub extract_journals : List SourceJournalArchive → Extraction → Extraction
  unfolding extract_matching
  extract_journals [] x = x
  extract_journals (j ∷ js) x = extract_journals js (
      extract_matching j.mail_items (record x {
        source_item_count = x.source_item_count + length j.mail_items;
        current_mailbox_address = none;
      }))

  -- the body of the loop over archives
  unfoldable pub extract_archive : List String → SourceArchive → Extraction → Extraction
  unfolding note_archive is_fsa unsupported extract_mailboxes extract_journals
  extract_archive names a x =
      if not (text_in a.name names)
      then x
      else if is_fsa a.archive_type
      then unsupported a (note_archive a x)
      else extract_journals a.journal_archives (extract_mailboxes a.mailboxes (note_archive a x))

  unfoldable pub extract_archives : List String → List SourceArchive → Extraction → Extraction
  unfolding extract_archive
  extract_archives names [] x = x
  extract_archives names (a ∷ more) x = extract_archives names more (extract_archive names a x)

  -- for vault_store in selected_vault_stores
  unfoldable pub extract_stores : List String → List SourceVaultStore → Extraction → Extraction
  unfolding extract_archives
  extract_stores names [] x = x
  extract_stores names (s ∷ ss) x = extract_stores names ss (extract_archives names s.archives x)
