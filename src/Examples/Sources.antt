-- ===== src/Examples/Sources.antt =====
-- Discovery, extraction and transformation at concrete stores.
use enterprise_vault_migrati.Prelude.{
  codes, ℕ, ◌≡◌, refl, true, false, none, some, List, [], ◌∷◌, ◌↔◌, ◌⊎◌, ◌++◌,
}
use enterprise_vault_migrati.Errors.{ok, Returns}
use enterprise_vault_migrati.Contracts.{Configuration}
use enterprise_vault_migrati.Contracts.Source.{SourceVaultStore, SourceArchive, mailbox, fsa}
use enterprise_vault_migrati.Contracts.Documents.{ArchiveDiscoveryResult, ExtractionResult}
use enterprise_vault_migrati.Context.{StepContext}
use enterprise_vault_migrati.Discover.{discover, resolve_vault_stores}
use enterprise_vault_migrati.Discover.Scope.{InScope, discover-InScope}
use enterprise_vault_migrati.Extract.{extract, stores_to_extract}
use enterprise_vault_migrati.Extract.Paths.{root, normalize_folder_path}
use enterprise_vault_migrati.Extract.Filters.{folder_selected, mail_item_matches_filters}
use enterprise_vault_migrati.Extract.Loops.{select_vault_stores}
use enterprise_vault_migrati.Extract.Selection.{
  InFolders, NotBefore, NotAfter, mail_item_matches_filters_iff, root_selects_only_itself,
}
use enterprise_vault_migrati.Extract.Archives.{archives_of}
use enterprise_vault_migrati.Extract.Traversal.{items_of}
use enterprise_vault_migrati.Extract.Described.{Extracted, extract-Extracted}
use enterprise_vault_migrati.Transform.{transform, discovered_names}
use enterprise_vault_migrati.Transform.Loop.{has_item, find_in_stores}
use enterprise_vault_migrati.Transform.Publication.{Published, transform-Published}
use enterprise_vault_migrati.Transform.Places.{first_where, archive_found, place_of_item}
use enterprise_vault_migrati.Examples.Data.{nat_runtime, context, configuration}
use enterprise_vault_migrati.Examples.Contents.{mail_item}

abbrev legal : SourceArchive
legal = record {
  name = "Legal";
  archive_type = mailbox;
  is_orphaned = false;
  original_owner_identifier = none;
  owner_resolution_status = "resolved";
  mailboxes = record { address = "m@y.z"; mail_items = mail_item ∷ [] } ∷ [];
  journal_archives = [];
  archived_files = [];
  shortcuts = [];
  source_path = none;
}

abbrev files : SourceArchive
files = record legal { name = "Files"; archive_type = fsa; mailboxes = [] }

-- An archive with a copy of the item.
abbrev copies : SourceArchive
copies = record legal { name = "Copies" }

abbrev stores : List SourceVaultStore
stores =
    record { name = "First"; archives = copies ∷ files ∷ [] }
    ∷ record { name = "Second"; archives = legal ∷ [] }
    ∷ []

-- Only mail below "/Inbox" of the archives "Legal" and "Files", from the start of time 0 on.
abbrev filters : Configuration ℕ
filters = record (configuration false) {
  archive_names = some ("Legal" ∷ "Files" ∷ []);
  folder_paths = some ("/Inbox" ∷ []);
  start_date = some 0;
}

abbrev before : StepContext ℕ
before =
    let c = context false in
    record c { execution_context = record c.execution_context { configuration = filters } }

abbrev discovery : ArchiveDiscoveryResult
discovery = record {
  vault_store_names = "First" ∷ "Second" ∷ [];
  archive_names = "Files" ∷ "Legal" ∷ [];
  vault_store_count = 2;
  archive_count = 2;
}

abbrev discovered : StepContext ℕ
discovered = record before { discovery_result = some discovery; vault_stores = some stores }

abbrev extraction : ExtractionResult
extraction = record {
  discovered_archives = files ∷ legal ∷ [];
  extracted_mailboxes = legal.mailboxes;
  extracted_mail_items = mail_item ∷ [];
  extracted_attachments = [];
  total_mailboxes = 1;
  total_items = 1;
  total_attachments = 0;
  unsupported_archives = files ∷ [];
  warnings = [];
}

abbrev extracted : StepContext ℕ
extracted = record discovered { extraction_result = some extraction }

discover-InScope_example :
    (c' : StepContext ℕ) × (extract nat_runtime none none
        (discover nat_runtime (some stores) none before)
      ≡ ok c')
    × InScope nat_runtime (some ("Legal" ∷ "Files" ∷ [])) stores c'
unfolding resolve_vault_stores
discover-InScope_example =
    discover-InScope nat_runtime (some stores) none none none before (refl, (refl, tt))

extract-Extracted_example :
    (c' : StepContext ℕ) × (extract nat_runtime none none discovered ≡ ok c')
    × Extracted nat_runtime
        (select_vault_stores stores ("First" ∷ "Second" ∷ []))
        discovery
        discovered
        c'
unfolding stores_to_extract
extract-Extracted_example = extract-Extracted nat_runtime none none discovered discovery refl

inbox_settled :
    normalize_folder_path (normalize_folder_path (codes "/Inbox"))
    ≡ normalize_folder_path (codes "/Inbox")
unfolding normalize_folder_path
inbox_settled = refl

mail_item_matches_filters_iff_example :
    (mail_item_matches_filters filters mail_item ≡ true)
    ↔ (InFolders (some ("/Inbox" ∷ [])) (codes "Inbox") × NotBefore (some 0) 0 × NotAfter none 0)
mail_item_matches_filters_iff_example =
    mail_item_matches_filters_iff filters mail_item (inbox_settled, tt)

root_selects_only_itself_example : (folder_selected (some ("/" ∷ [])) (codes "/Inbox") ≡ true) ↔ (
    (normalize_folder_path (codes "/Inbox") ≡ root)
    ⊎ ((rest : List ℕ) × (normalize_folder_path (codes "/Inbox") ≡ root ++ root ++ rest)))
root_selects_only_itself_example = root_selects_only_itself (codes "/Inbox")

transform-Published_example :
    Returns
      (Published nat_runtime (select_vault_stores stores ("First" ∷ "Second" ∷ [])) extraction)
      (transform nat_runtime none none none extracted)
unfolding stores_to_extract discovered_names
transform-Published_example =
    transform-Published nat_runtime none none none extracted extraction refl tt

place_of_item_example :
    archive_found (find_in_stores "m" stores)
    ≡ first_where (λ a. has_item "m" (items_of a)) (archives_of stores)
place_of_item_example = place_of_item "m" stores
