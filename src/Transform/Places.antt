-- ===== src/Transform/Places.antt =====
-- Where the transformation finds an item: exactly where an item of its identifier is.
use enterprise_vault_migrati.Prelude.{
  ◌≡◌, refl, sym, ap, ◌∙◌, String, Bool, true, false, Option, none, some, List, [], ◌∷◌, ◌++◌,
  any_of, any_of-append, is_some, concat_map, concat_map-append, Bool-cases, inl, inr,
  if◌then◌else◌, or_option,
}
use enterprise_vault_migrati.Contracts.Source.{
  SourceVaultStore, SourceArchive, SourceMailbox, SourceJournalArchive,
}
use enterprise_vault_migrati.Extract.Traversal.{items_of}
use enterprise_vault_migrati.Extract.Archives.{archives_of}
use enterprise_vault_migrati.Transform.Loop.{
  Place, has_item, find_mailbox, in_archive, find_in_archives, find_in_stores,
}

or-found :
    {A : Type 0} (o p : Option A) (b c : Bool)
    → is_some o ≡ b
    → is_some p ≡ c
    → is_some (or_option o p) ≡ (if b then true else c)
or-found none p b c h k = rw (sym h) k
or-found (some a) p b c h k = rw (sym h) refl

-- A place is found exactly for the identifiers of the items that there are.
module _ (key : String) where
  is_some-find_mailbox :
      (bs : List SourceMailbox)
      → is_some (find_mailbox key bs)
        ≡ has_item key (concat_map (λ (b : SourceMailbox). b.mail_items) bs)
  unfolding find_mailbox
  is_some-find_mailbox [] = refl
  is_some-find_mailbox (b ∷ bs) = elim (Bool-cases (has_item key b.mail_items)) [
    | inl y ↦ rw (y, any_of-append, y) refl
    | inr n ↦ rw (n, any_of-append, n) (is_some-find_mailbox bs)
  ]

  any-journal :
      (js : List SourceJournalArchive)
      → any_of (λ (j : SourceJournalArchive). has_item key j.mail_items) js
        ≡ has_item key (concat_map (λ (j : SourceJournalArchive). j.mail_items) js)
  any-journal [] = refl
  any-journal (j ∷ js) = rw (any_of-append, any-journal js) refl

  by_journals : (b : Bool) (p : Place) → is_some (if b then some p else none) ≡ b
  by_journals true p = refl
  by_journals false p = refl

  is_some-in_archive :
      (a : SourceArchive) (o : Option SourceMailbox)
      → is_some o ≡ has_item key (concat_map (λ (b : SourceMailbox). b.mail_items) a.mailboxes)
      → is_some (in_archive key a o) ≡ has_item key (items_of a)
  unfolding in_archive
  is_some-in_archive a (some b) h = rw (any_of-append, sym h) refl
  is_some-in_archive a none h =
      rw (any_of-append, sym h, any-journal a.journal_archives) (by_journals _ _)

  is_some-find_in_archives :
      (archives : List SourceArchive)
      → is_some (find_in_archives key archives) ≡ has_item key (concat_map items_of archives)
  unfolding find_in_archives
  is_some-find_in_archives [] = refl
  is_some-find_in_archives (a ∷ archives) =
      or-found (in_archive key a (find_mailbox key a.mailboxes)) (find_in_archives key archives)
        (has_item key (items_of a)) (has_item key (concat_map items_of archives))
        (is_some-in_archive a (find_mailbox key a.mailboxes) (is_some-find_mailbox a.mailboxes))
        (is_some-find_in_archives archives)
      ∙ sym (any_of-append _ (items_of a) (concat_map items_of archives))

  pub is_some-find_in_stores :
      (stores : List SourceVaultStore)
      → is_some (find_in_stores key stores)
        ≡ has_item key (concat_map items_of (archives_of stores))
  unfolding find_in_stores
  is_some-find_in_stores [] = refl
  is_some-find_in_stores (s ∷ stores) =
      or-found (find_in_archives key s.archives) (find_in_stores key stores)
        (has_item key (concat_map items_of s.archives))
        (has_item key (concat_map items_of (archives_of stores)))
        (is_some-find_in_archives s.archives) (is_some-find_in_stores stores)
      ∙ sym (
          any_of-append _ (concat_map items_of s.archives)
            (concat_map items_of (archives_of stores)))
      ∙ ap (has_item key) (sym (concat_map-append items_of s.archives (archives_of stores)))

-- The first element that passes a test.
abbrev pub first_where {ℓ} : {A : Type ℓ} → (A → Bool) → List A → Option A
first_where p [] = none
first_where p (x ∷ xs) = if p x then some x else first_where p xs

abbrev pub archive_found : Option Place → Option SourceArchive
archive_found none = none
archive_found (some (a, b)) = some a

archive_by :
    (x b : Bool) (a : SourceArchive) (m : Option SourceMailbox)
    → is_some {A = Place} (if x then some (a, m) else none) ≡ b
    → archive_found (if x then some (a, m) else none) ≡ (if b then some a else none)
archive_by true b a m h = rw (sym h) refl
archive_by false b a m h = rw (sym h) refl

archive_found-or_option :
    (o p : Option Place) (b : Bool) (a r : Option SourceArchive)
    → archive_found o ≡ (if b then a else none)
    → archive_found p ≡ r
    → is_some o ≡ b
    → archive_found (or_option o p) ≡ (if b then a else r)
archive_found-or_option none p b a r h k e = rw (sym e) k
archive_found-or_option (some (x, m)) p b a r h k e = rw (sym e) (rw (sym e) at h)

first_where-append {ℓ} :
    {A : Type ℓ} (p : A → Bool) (xs ys : List A)
    → first_where p (xs ++ ys) ≡ or_option (first_where p xs) (first_where p ys)
first_where-append p [] ys = refl
first_where-append p (x ∷ xs) ys = elim (Bool-cases (p x)) [
  | inl y ↦ rw y refl
  | inr n ↦ rw n (first_where-append p xs ys)
]

module _ (key : String) where
  in_archive-archive :
      (a : SourceArchive) (o : Option SourceMailbox) (b : Bool)
      → is_some (in_archive key a o) ≡ b
      → archive_found (in_archive key a o) ≡ (if b then some a else none)
  unfolding in_archive
  in_archive-archive a (some m) b h = rw (sym h) refl
  in_archive-archive a none b h =
      archive_by
        (any_of (λ (j : SourceJournalArchive). has_item key j.mail_items) a.journal_archives) b a
        none h

  find_in_archives-first :
      (archives : List SourceArchive)
      → archive_found (find_in_archives key archives)
        ≡ first_where (λ a. has_item key (items_of a)) archives
  unfolding find_in_archives
  find_in_archives-first [] = refl
  find_in_archives-first (a ∷ archives) =
      let o = find_mailbox key a.mailboxes in
      let there = is_some-in_archive key a o (is_some-find_mailbox key a.mailboxes) in
      archive_found-or_option (in_archive key a o) (find_in_archives key archives)
        (has_item key (items_of a)) (some a) _
        (in_archive-archive a o (has_item key (items_of a)) there) (find_in_archives-first archives)
        there

  archive_found-or :
      (o p : Option Place)
      → archive_found (or_option o p) ≡ or_option (archive_found o) (archive_found p)
  archive_found-or none p = refl
  archive_found-or (some (a, m)) p = refl

  -- The transformation takes an item to be in the first archive of the selected stores that has an
  -- item of the same identifier, whether or not that archive was to be extracted.
  pub place_of_item :
      (stores : List SourceVaultStore)
      → archive_found (find_in_stores key stores)
        ≡ first_where (λ a. has_item key (items_of a)) (archives_of stores)
  unfolding find_in_stores
  place_of_item [] = refl
  place_of_item (s ∷ stores) =
      archive_found-or (find_in_archives key s.archives) (find_in_stores key stores)
      ∙ rw (find_in_archives-first s.archives, place_of_item stores)
          (sym
            (first_where-append (λ a. has_item key (items_of a)) s.archives (archives_of stores)))
