-- ===== src/Extract/Traversal.antt =====
-- The loops of the extraction against a description without loops or variables.
use Prim.Native.String.{◌++◌ as ◌+s◌}
use mathlib.Core.List.{append_assoc, append-nil, map-append}
use enterprise_vault_migrati.Prelude.{
  Option, some, none, ◌+◌, ◌≡◌, refl, sym, ap, ◌∙◌, String, Bool, List, [], ◌∷◌, ◌++◌, map, arith,
  length, length-append, filter_if, filter_if-append, concat_map, concat_map-append, Bool-cases,
  inl, inr,
}
use enterprise_vault_migrati.Contracts.Source.{
  archive_type_value, SourceArchive, SourceMailbox, SourceJournalArchive, SourceMailItem,
  SourceAttachment,
}
use enterprise_vault_migrati.Extract.Loops.{
  Extraction, extract_item, extract_items, extract_mailboxes, extract_matching, extract_journals,
}

-- The items of an archive: those of its mailboxes, then those of its journals.
abbrev pub items_of : SourceArchive → List SourceMailItem
items_of a =
    concat_map (λ (b : SourceMailbox). b.mail_items) a.mailboxes
    ++ concat_map (λ (j : SourceJournalArchive). j.mail_items) a.journal_archives

abbrev pub attachments_of : List SourceMailItem → List SourceAttachment
attachments_of ms = concat_map (λ (m : SourceMailItem). m.attachments) ms

abbrev pub warnings_of : List SourceArchive → List String
warnings_of archives =
    map (λ (a : SourceArchive). "Unsupported archive type: " +s archive_type_value a.archive_type)
      archives

module _ (matches : SourceMailItem → Bool) where
  -- What one part of the loops adds: the archives `archives` with the unsupported `us`, the mailboxes
  -- `bs`, and of the items `ms` those that match.
  pub record Adds (x y : Extraction) (archives us : List SourceArchive) (bs : List SourceMailbox)
      (ms : List SourceMailItem) : Type 0 where
    pub archives_added : y.discovered_archives ≡ x.discovered_archives ++ archives
    pub unsupported_added : y.unsupported_archives ≡ x.unsupported_archives ++ us
    pub warned : y.warnings ≡ x.warnings ++ warnings_of us
    pub mailboxes_added : y.extracted_mailboxes ≡ x.extracted_mailboxes ++ bs
    pub items_added : y.extracted_mail_items ≡ x.extracted_mail_items ++ filter_if matches ms
    pub attachments_added :
        y.extracted_attachments ≡ x.extracted_attachments ++ attachments_of (filter_if matches ms)
    pub source_counted : y.source_item_count ≡ x.source_item_count + length ms
    pub extracted_counted :
        y.extracted_item_count ≡ x.extracted_item_count + length (filter_if matches ms)

  pub Adds-refl : (x : Extraction) → Adds x x [] [] [] []
  Adds-refl x = record {
    archives_added = sym (append-nil x.discovered_archives);
    unsupported_added = sym (append-nil x.unsupported_archives);
    warned = sym (append-nil x.warnings);
    mailboxes_added = sym (append-nil x.extracted_mailboxes);
    items_added = sym (append-nil x.extracted_mail_items);
    attachments_added = sym (append-nil x.extracted_attachments);
    source_counted = omega arith;
    extracted_counted = omega arith;
  }

  -- One part after the other.
  pub Adds-trans :
      {x y z : Extraction} {archives us : List SourceArchive} {bs : List SourceMailbox}
      {ms : List SourceMailItem} {archives2 us2 : List SourceArchive} {bs2 : List SourceMailbox}
      {ms2 : List SourceMailItem}
      → Adds x y archives us bs ms
      → Adds y z archives2 us2 bs2 ms2
      → Adds x z (archives ++ archives2) (us ++ us2) (bs ++ bs2) (ms ++ ms2)
  Adds-trans {us} {ms} {us2} {ms2} h k = record {
    archives_added = simp (k.archives_added, h.archives_added, append_assoc);
    unsupported_added = simp (k.unsupported_added, h.unsupported_added, append_assoc);
    warned = simp (k.warned, h.warned, append_assoc, map-append);
    mailboxes_added = simp (k.mailboxes_added, h.mailboxes_added, append_assoc);
    items_added = simp (k.items_added, h.items_added, filter_if-append, append_assoc);
    attachments_added = simp (
      k.attachments_added, h.attachments_added, filter_if-append, concat_map-append, append_assoc,
    );
    source_counted = omega (arith, k.source_counted, h.source_counted, length-append ms ms2);
    extracted_counted = omega (
      arith,
      k.extracted_counted,
      h.extracted_counted,
      ap length (filter_if-append matches ms ms2),
      length-append (filter_if matches ms) (filter_if matches ms2),
    );
  }

  -- What the loop over items adds, which are taken as they come.
  record Takes (x y : Extraction) (ms : List SourceMailItem) : Type 0 where
    items_taken : y.extracted_mail_items ≡ x.extracted_mail_items ++ ms
    attachments_taken : y.extracted_attachments ≡ x.extracted_attachments ++ attachments_of ms
    taken_counted : y.extracted_item_count ≡ x.extracted_item_count + length ms
    archives_kept : y.discovered_archives ≡ x.discovered_archives
    unsupported_kept : y.unsupported_archives ≡ x.unsupported_archives
    warnings_kept : y.warnings ≡ x.warnings
    mailboxes_kept : y.extracted_mailboxes ≡ x.extracted_mailboxes
    source_kept : y.source_item_count ≡ x.source_item_count

  extract_items-Takes :
      (ms : List SourceMailItem) (x : Extraction) → Takes x (extract_items ms x) ms
  unfolding extract_items
  extract_items-Takes [] x = record {
    items_taken = sym (append-nil x.extracted_mail_items);
    attachments_taken = sym (append-nil x.extracted_attachments);
    taken_counted = omega arith;
    archives_kept = refl;
    unsupported_kept = refl;
    warnings_kept = refl;
    mailboxes_kept = refl;
    source_kept = refl;
  }
  extract_items-Takes (m ∷ ms) x =
      let h = extract_items-Takes ms (extract_item m x) in
      record {
        items_taken = simp (h.items_taken, append_assoc);
        attachments_taken = simp (h.attachments_taken, append_assoc);
        taken_counted = omega (arith, h.taken_counted);
        archives_kept = h.archives_kept;
        unsupported_kept = h.unsupported_kept;
        warnings_kept = h.warnings_kept;
        mailboxes_kept = h.mailboxes_kept;
        source_kept = h.source_kept;
      }

  readdressed :
      (address : Option String) (x : Extraction)
      → Takes x (record x { current_mailbox_address = address }) []
  readdressed address x = record {
    items_taken = sym (append-nil x.extracted_mail_items);
    attachments_taken = sym (append-nil x.extracted_attachments);
    taken_counted = omega arith;
    archives_kept = refl;
    unsupported_kept = refl;
    warnings_kept = refl;
    mailboxes_kept = refl;
    source_kept = refl;
  }

  -- The loop that skips is the loop over what matches.
  extract_matching_lem :
      (ms : List SourceMailItem) (x : Extraction)
      → extract_matching matches ms x ≡ extract_items (filter_if matches ms) x
  unfolding extract_matching extract_items
  extract_matching_lem [] x = refl
  extract_matching_lem (m ∷ ms) x = elim (Bool-cases (matches m)) [
    | inl y ↦ rw y (extract_matching_lem ms (extract_item m x))
    | inr n ↦ rw n (extract_matching_lem ms x)
  ]

  -- A block of items, of a mailbox or of none.
  taken-Adds :
      (x x1 y : Extraction) (bs : List SourceMailbox) (ms : List SourceMailItem)
      → Takes x1 y (filter_if matches ms)
      → Takes x
          (record x1 {
            source_item_count = x.source_item_count;
            extracted_mailboxes = x.extracted_mailboxes;
          })
          []
      → x1.source_item_count ≡ x.source_item_count + length ms
      → x1.extracted_mailboxes ≡ x.extracted_mailboxes ++ bs
      → Adds x y [] [] bs ms
  taken-Adds x x1 y bs ms h k counted boxes = record {
    archives_added = h.archives_kept ∙ k.archives_kept ∙ sym (append-nil _);
    unsupported_added = h.unsupported_kept ∙ k.unsupported_kept ∙ sym (append-nil _);
    warned = h.warnings_kept ∙ k.warnings_kept ∙ sym (append-nil _);
    mailboxes_added = h.mailboxes_kept ∙ boxes;
    items_added = simp (h.items_taken, k.items_taken, append-nil);
    attachments_added = simp (h.attachments_taken, k.attachments_taken, append-nil);
    source_counted = omega (arith, h.source_kept, counted);
    extracted_counted = omega (arith, h.taken_counted, k.taken_counted);
  }

  pub mailboxes-Adds :
      (bs : List SourceMailbox) (x : Extraction)
      → Adds x
          (extract_mailboxes matches bs x)
          []
          []
          bs
          (concat_map (λ (b : SourceMailbox). b.mail_items) bs)
  unfolding extract_mailboxes
  mailboxes-Adds [] x = Adds-refl x
  mailboxes-Adds (b ∷ bs) x =
      let x1 = record x {
        source_item_count = x.source_item_count + length b.mail_items;
        extracted_mailboxes = x.extracted_mailboxes ++ b ∷ [];
        current_mailbox_address = some b.address;
      } in
      let y = extract_items (filter_if matches b.mail_items) x1 in
      let first =
        taken-Adds x x1 y (b ∷ []) b.mail_items
          (extract_items-Takes (filter_if matches b.mail_items) x1) (readdressed (some b.address) x)
          refl refl in
      Adds-trans first (mailboxes-Adds bs y)

  pub journals-Adds :
      (js : List SourceJournalArchive) (x : Extraction)
      → Adds x
          (extract_journals matches js x)
          []
          []
          []
          (concat_map (λ (j : SourceJournalArchive). j.mail_items) js)
  unfolding extract_journals
  journals-Adds [] x = Adds-refl x
  journals-Adds (j ∷ js) x =
      let x1 = record x {
        source_item_count = x.source_item_count + length j.mail_items;
        current_mailbox_address = none;
      } in
      let first : Adds x (extract_matching matches j.mail_items x1) [] [] [] j.mail_items =
        rw (extract_matching_lem j.mail_items x1) (
          taken-Adds x x1 _ [] j.mail_items
            (extract_items-Takes (filter_if matches j.mail_items) x1) (readdressed none x) refl
            (sym (append-nil x.extracted_mailboxes))) in
      Adds-trans first (journals-Adds js (extract_matching matches j.mail_items x1))
