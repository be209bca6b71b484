-- ===== src/Extract/Archives.antt =====
-- What the loops of the extraction add for archives and stores.
use mathlib.Core.List.{append-nil}
use enterprise_vault_migrati.Prelude.{
  refl, sym, String, Bool, List, [], ◌∷◌, ◌++◌, arith, not, text_in, filter_if, filter_if-append,
  concat_map, concat_map-append, Bool-cases, inl, inr,
}
use enterprise_vault_migrati.Contracts.Source.{SourceVaultStore, SourceArchive, SourceMailItem}
use enterprise_vault_migrati.Extract.Loops.{
  Extraction, extract_mailboxes, extract_journals, note_archive, is_fsa, unsupported,
  extract_archive, extract_archives, extract_stores,
}
use enterprise_vault_migrati.Extract.Traversal.{
  items_of, Adds, Adds-refl, Adds-trans, mailboxes-Adds, journals-Adds,
}

-- The archives whose names are listed, those of files among them, and the others.
abbrev pub listed : List String → List SourceArchive → List SourceArchive
listed names archives = filter_if (λ (a : SourceArchive). text_in a.name names) archives

abbrev pub file_archives : List SourceArchive → List SourceArchive
file_archives archives = filter_if (λ (a : SourceArchive). is_fsa a.archive_type) archives

abbrev pub mail_archives : List SourceArchive → List SourceArchive
mail_archives archives = filter_if (λ (a : SourceArchive). not (is_fsa a.archive_type)) archives

abbrev pub archives_of : List SourceVaultStore → List SourceArchive
archives_of stores = concat_map (λ (s : SourceVaultStore). s.archives) stores

module _ (matches : SourceMailItem → Bool) where
  -- What listed archives add.
  abbrev pub AddsArchives : Extraction → Extraction → List SourceArchive → Type 0
  AddsArchives x y archives =
      Adds matches x y archives (file_archives archives)
        (concat_map (λ (a : SourceArchive). a.mailboxes) (mail_archives archives))
        (concat_map items_of (mail_archives archives))

  noted-Adds :
      (a : SourceArchive) (x : Extraction) → Adds matches x (note_archive a x) (a ∷ []) [] [] []
  unfolding note_archive
  noted-Adds a x = record {
    archives_added = refl;
    unsupported_added = sym (append-nil x.unsupported_archives);
    warned = sym (append-nil x.warnings);
    mailboxes_added = sym (append-nil x.extracted_mailboxes);
    items_added = sym (append-nil x.extracted_mail_items);
    attachments_added = sym (append-nil x.extracted_attachments);
    source_counted = omega arith;
    extracted_counted = omega arith;
  }

  unsupported-Adds :
      (a : SourceArchive) (x : Extraction) → Adds matches x (unsupported a x) [] (a ∷ []) [] []
  unfolding unsupported
  unsupported-Adds a x = record {
    archives_added = sym (append-nil x.discovered_archives);
    unsupported_added = refl;
    warned = refl;
    mailboxes_added = sym (append-nil x.extracted_mailboxes);
    items_added = sym (append-nil x.extracted_mail_items);
    attachments_added = sym (append-nil x.extracted_attachments);
    source_counted = omega arith;
    extracted_counted = omega arith;
  }

  mail-Adds :
      (a : SourceArchive) (x : Extraction)
      → Adds matches x
          (extract_journals matches a.journal_archives (extract_mailboxes matches a.mailboxes x))
          []
          []
          a.mailboxes
          (items_of a)
  mail-Adds a x =
      let boxes = mailboxes-Adds matches a.mailboxes x in
      let journals =
        journals-Adds matches a.journal_archives (extract_mailboxes matches a.mailboxes x) in
      rw (append-nil a.mailboxes) at (Adds-trans matches boxes journals)

  archives-Adds :
      (names : List String) (archives : List SourceArchive) (x : Extraction)
      → AddsArchives x (extract_archives matches names archives x) (listed names archives)
  unfolding extract_archives extract_archive
  archives-Adds names [] x = Adds-refl matches x
  archives-Adds names (a ∷ archives) x = elim (Bool-cases (text_in a.name names)) [
    | inr n ↦ rw n (archives-Adds names archives x)
    | inl y ↦ elim (Bool-cases (is_fsa a.archive_type)) [
      | inl f ↦
          rw (y, f)
            (Adds-trans matches (noted-Adds a x) (
              Adds-trans matches (unsupported-Adds a (note_archive a x))
                (archives-Adds names archives (unsupported a (note_archive a x)))))
      | inr m ↦
          rw (y, m)
            (Adds-trans matches (noted-Adds a x) (
              Adds-trans matches (mail-Adds a (note_archive a x)) (archives-Adds names archives _)))
    ]
  ]

  AddsArchives-trans :
      (x y z : Extraction) (archives more : List SourceArchive)
      → AddsArchives x y archives
      → AddsArchives y z more
      → AddsArchives x z (archives ++ more)
  AddsArchives-trans x y z archives more h k =
      simp (filter_if-append, concat_map-append) (Adds-trans matches h k)

  pub stores-Adds :
      (names : List String) (stores : List SourceVaultStore) (x : Extraction)
      → AddsArchives x (extract_stores matches names stores x) (listed names (archives_of stores))
  unfolding extract_stores
  stores-Adds names [] x = Adds-refl matches x
  stores-Adds names (s ∷ stores) x =
      let x1 = extract_archives matches names s.archives x in
      let h =
        AddsArchives-trans x x1 (extract_stores matches names stores x1) (listed names s.archives)
          (listed names (archives_of stores)) (archives-Adds names s.archives x)
          (stores-Adds names stores x1) in
      rw
        (filter_if-append (λ (a : SourceArchive). text_in a.name names) s.archives
          (archives_of stores))
        h
