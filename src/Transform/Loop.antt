-- ===== src/Transform/Loop.antt =====
-- The loop of src/migration_engine/steps/transform_items_step.py over the extracted items.
use mathlib.Core.Option
use enterprise_vault_migrati.Prelude.{
  ℕ, ◌+◌, String, Bool, true, false, Option, none, some, List, [], ◌∷◌, ◌++◌, str_eq, any_of,
  if◌then◌else◌, or_option,
}
use enterprise_vault_migrati.Runtime.{Runtime}
use enterprise_vault_migrati.Errors.{ErrorClass, ok, err, Attempt, plain, value_error, ◌>>=◌}
use enterprise_vault_migrati.Contracts.Source.{
  SourceVaultStore, SourceArchive, SourceMailbox, SourceJournalArchive, SourceMailItem,
}
use enterprise_vault_migrati.Contracts.Documents.{TransformedDocument}
use enterprise_vault_migrati.Rehydration.{RehydratedContent, Rehydrator, rehydrate}
use enterprise_vault_migrati.Transform.Document.{transform_mail_item}

-- `candidate is mail_item or candidate.internet_message_id == mail_item.internet_message_id`
abbrev pub has_item : String → List SourceMailItem → Bool
has_item key ms = any_of (λ (m : SourceMailItem). str_eq m.internet_message_id key) ms

unfoldable pub find_mailbox : String → List SourceMailbox → Option SourceMailbox
find_mailbox key [] = none
find_mailbox key (b ∷ bs) = if has_item key b.mail_items then some b else find_mailbox key bs

abbrev pub Place : Type 0
Place = SourceArchive × Option SourceMailbox

-- one archive: a mailbox that has the item, or else a journal
unfoldable pub in_archive : String → SourceArchive → Option SourceMailbox → Option Place
in_archive key a (some b) = some (a, some b)
in_archive key a none =
    if any_of (λ (j : SourceJournalArchive). has_item key j.mail_items) a.journal_archives
    then some (a, none)
    else none

unfoldable pub find_in_archives : String → List SourceArchive → Option Place
unfolding in_archive find_mailbox
find_in_archives key [] = none
find_in_archives key (a ∷ archives) =
    or_option (in_archive key a (find_mailbox key a.mailboxes)) (find_in_archives key archives)

unfoldable pub find_in_stores : String → List SourceVaultStore → Option Place
unfolding find_in_archives
find_in_stores key [] = none
find_in_stores key (s ∷ stores) =
    or_option (find_in_archives key s.archives) (find_in_stores key stores)

module _ {F : Type 0} where
  unfoldable pub found : Option Place → Attempt F Place
  found none = err (
      plain value_error
        "Transformation requires mail item context that matches the extracted source item")
  found (some p) = ok p

  -- _resolve_mail_item_context
  unfoldable pub resolve_mail_item_context :
      List SourceVaultStore → SourceMailItem → Attempt F Place
  unfolding found find_in_stores
  resolve_mail_item_context stores m = found (find_in_stores m.internet_message_id stores)

-- The variables of the loop, with the rehydrator that it mutates.
pub record Transformation : Type 0 where
  pub transformed_documents : List TransformedDocument
  pub failed_item_identifiers : List String
  pub warnings : List String
  pub current_archive_name : Option String
  pub current_mailbox_address : Option String
  pub current_item_name : Option String
  pub failed_items : ℕ
  pub rehydrator : Rehydrator

abbrev pub nothing_transformed : Rehydrator → Transformation
nothing_transformed r = record {
  transformed_documents = [];
  failed_item_identifiers = [];
  warnings = [];
  current_archive_name = none;
  current_mailbox_address = none;
  current_item_name = none;
  failed_items = 0;
  rehydrator = r;
}

abbrev pub address_of : Option SourceMailbox → Option String
address_of o = Option.map (λ (b : SourceMailbox). b.address) o

-- isinstance(exc, ValidationError)
unfoldable pub is_validation_error : ErrorClass → Bool
is_validation_error ErrorClass.validation_error = true
is_validation_error _ = false

module _ {F : Type 0} (rt : Runtime F) where
  -- after the rehydration of an item
  unfoldable pub after_rehydration :
      Place
      → SourceMailItem
      → Attempt F RehydratedContent × Rehydrator
      → Transformation
      → Attempt F Transformation
  unfolding is_validation_error transform_mail_item
  after_rehydration (a, b) m (err e, r) t =
      if is_validation_error e.error_class
      then ok (record t {
        failed_item_identifiers = t.failed_item_identifiers ++ m.internet_message_id ∷ [];
        warnings = t.warnings ++ e.message ∷ [];
        current_archive_name = some a.name;
        current_mailbox_address = address_of b;
        current_item_name = some m.subject;
        failed_items = t.failed_items + 1;
        rehydrator = r;
      })
      else err e
  after_rehydration (a, b) m (ok content, r) t =
      let d = transform_mail_item rt a (address_of b) m in
      ok (record t {
        transformed_documents = t.transformed_documents ++ d ∷ [];
        current_archive_name = some a.name;
        current_mailbox_address = address_of b;
        current_item_name = some d.filename;
        rehydrator = r;
      })

  -- the body of the loop
  unfoldable pub transform_item :
      List SourceVaultStore → ℕ → ℕ → SourceMailItem → Transformation → Attempt F Transformation
  unfolding resolve_mail_item_context after_rehydration
  transform_item stores started completed m t = resolve_mail_item_context stores m >>= λ place.
      after_rehydration place m (rehydrate rt m started completed t.rehydrator) t

  unfoldable pub transform_items :
      List SourceVaultStore
      → ℕ
      → ℕ
      → List SourceMailItem
      → Transformation
      → Attempt F Transformation
  unfolding transform_item
  transform_items stores started completed [] t = ok t
  transform_items stores started completed (m ∷ ms) t =
      transform_item stores started completed m t >>= λ t'.
      transform_items stores started completed ms t'
