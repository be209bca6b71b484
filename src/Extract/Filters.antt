-- ===== src/Extract/Filters.antt =====
-- `_mail_item_matches_filters` of src/migration_engine/steps/extract_items_step.py.
use enterprise_vault_migrati.Prelude.{
  codes, ℕ, String, Bool, true, false, Option, none, some, List, map, if◌then◌else◌, ltb, not,
  any_of,
}
use enterprise_vault_migrati.Contracts.{Configuration}
use enterprise_vault_migrati.Contracts.Source.{SourceMailItem}
use enterprise_vault_migrati.Extract.Paths.{path_eq, normalize_folder_path, folder_path_matches}

-- the test on the folder: `not in normalized_folder_paths`, then `any(…)`
unfoldable pub folder_selected : Option (List String) → List ℕ → Bool
folder_selected none item = true
folder_selected (some paths) item =
    let selected = map (λ p. normalize_folder_path (codes p)) paths in
    if any_of (λ s. path_eq s (normalize_folder_path item)) selected
    then true
    else any_of (λ s. folder_path_matches s item) selected

-- `start_date is not None and sent_at < start_date`, and the same with the end, for dates that are all
-- aware or all naive
unfoldable pub sent_before : Option ℕ → ℕ → Bool
sent_before none sent = false
sent_before (some start) sent = ltb sent start

unfoldable pub sent_after : Option ℕ → ℕ → Bool
sent_after none sent = false
sent_after (some end) sent = ltb end sent

-- _mail_item_matches_filters
unfoldable pub mail_item_matches_filters : {F : Type 0} → Configuration F → SourceMailItem → Bool
unfolding folder_selected sent_before sent_after
mail_item_matches_filters c m =
    if not (folder_selected c.folder_paths (codes m.folder_path))
    then false
    else if sent_before c.start_date m.sent_at
    then false
    else if sent_after c.end_date m.sent_at
    then false
    else true
