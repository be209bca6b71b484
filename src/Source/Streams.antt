-- ===== src/Source/Streams.antt =====
-- What the streams of mock_enterprise_vault_source_adapter.py have of an archive, and which archive
-- load_archive finds.
use enterprise_vault_migrati.Prelude.{
  ◌≡◌, String, false, Option, none, some, List, [], ◌∷◌, ◌++◌, All, str_eq, str_eq_iff,
  concat_map-append, Bool-cases, inl, inr,
}
use enterprise_vault_migrati.Contracts.Source.{SourceVaultStore, SourceArchive}
use enterprise_vault_migrati.Extract.Traversal.{attachments_of}
use enterprise_vault_migrati.Source.{
  first_named, iter_archives, load_archive, mailbox_items, journal_items, stream_mail_items,
  stream_attachments,
}

-- The first archive with the name stands behind archives with other names; there is none only where
-- every archive has another name.
pub data Finds (id : String) : List SourceArchive → Option SourceArchive → Type 0 where
  missing :
      {archives : List SourceArchive}
      → All (λ a. str_eq a.name id ≡ false) archives
      → Finds id archives none
  first :
      (before : List SourceArchive) (a : SourceArchive) (after : List SourceArchive)
      → All (λ b. str_eq b.name id ≡ false) before
      → a.name ≡ id
      → Finds id (before ++ a ∷ after) (some a)

Finds-skip :
    {id : String} {archives : List SourceArchive} {found : Option SourceArchive} (a : SourceArchive)
    → str_eq a.name id ≡ false
    → Finds id archives found
    → Finds id (a ∷ archives) found
Finds-skip a other (missing others) = missing (other, others)
Finds-skip a other (first before b after others named) =
    first (a ∷ before) b after (other, others) named

first_named-Finds :
    (id : String) (archives : List SourceArchive) → Finds id archives (first_named id archives)
unfolding first_named
first_named-Finds id [] = missing tt
first_named-Finds id (a ∷ rest) = elim (Bool-cases (str_eq a.name id)) [
  | inl y ↦ rw (y) (first [] a rest tt ((str_eq_iff a.name id).0 y))
  | inr n ↦ rw (n) (Finds-skip a n (first_named-Finds id rest))
]

module _ (stores : List SourceVaultStore) (id : String) where
  -- load_archive gives the first archive of that name over all vault stores, if there is one.
  pub load_archive-Finds : Finds id (iter_archives stores) (load_archive stores id)
  unfolding load_archive
  load_archive-Finds = first_named-Finds id (iter_archives stores)

  -- The streamed attachments are those of the streamed mail items but for the items of the
  -- archive's journal archives, whose attachments are left out.
  pub stream_attachments_lem :
      (a : SourceArchive)
      → load_archive stores id ≡ some a
      → attachments_of (stream_mail_items stores id)
        ≡ stream_attachments stores id ++ attachments_of (journal_items a)
  unfolding stream_attachments stream_mail_items
  stream_attachments_lem a found =
      rw (stream_mail_items, stream_attachments, found)
        (concat_map-append _ (mailbox_items a) (journal_items a))
