-- ===== src/Extract/Selection.antt =====
-- Which items the filters of the extraction let through.
use enterprise_vault_migrati.Prelude.{
  codes, starts_with, Any, ℕ, ◌==◌, ==_iff, ◌≡◌, refl, sym, ap, ◌↔◌, ◌⊎◌, inl, inr, ◌≤◌, String,
  Bool, true, false, Option, none, some, List, [], ◌∷◌, ◌++◌, map, arith, any_of, list_eq_refl,
  list_eq_sound, ==_refl, Bool-cases, not, All, if◌then◌else◌,
}
use enterprise_vault_migrati.Contracts.{Configuration}
use enterprise_vault_migrati.Contracts.Source.{SourceMailItem}
use enterprise_vault_migrati.Extract.Paths.{
  path_eq, root, normalize_folder_path, folder_path_matches,
}
use enterprise_vault_migrati.Extract.Filters.{
  folder_selected, sent_before, sent_after, mail_item_matches_filters,
}

path_eq_iff : (a b : List ℕ) → (path_eq a b ≡ true) ↔ (a ≡ b)
path_eq_iff a b = (
  list_eq_sound (λ m n. m == n) (λ x y h. (==_iff x y).0 h) a b,
  λ e. rw e (list_eq_refl (λ m n. m == n) ==_refl b),
)

starts_with_iff : (p xs : List ℕ) → (starts_with p xs ≡ true) ↔ ((rest : List ℕ) × (xs ≡ p ++ rest))
unfolding starts_with
starts_with_iff [] xs = (λ h. (xs, refl), λ h. refl)
starts_with_iff (c ∷ p) [] = (λ h. absurd (cc h), λ (rest, e). absurd (cc e))
starts_with_iff (c ∷ p) (d ∷ xs) = (
  λ h. elim (Bool-cases (c == d)) [
    | inl y ↦
        let (rest, e) = (starts_with_iff p xs).0 (rw y at h) in (rest, cc (e, (==_iff c d).0 y))
    | inr n ↦ absurd (ground (arith, n))
  ],
  λ (rest, e).
      rw (let q : (c == d) ≡ true = (==_iff c d).1 (cc e) in q)
        ((starts_with_iff p xs).1 (rest, cc e)),
)

-- The item's folder is the selected one or lies below it.
abbrev pub Under : List ℕ → List ℕ → Type 0
Under selected item = (item ≡ selected) ⊎ ((rest : List ℕ) × (item ≡ selected ++ root ++ rest))

folder_path_matches_iff :
    (selected item : List ℕ)
    → (folder_path_matches selected item ≡ true)
      ↔ Under (normalize_folder_path selected) (normalize_folder_path item)
unfolding folder_path_matches
folder_path_matches_iff selected item =
    let s = normalize_folder_path selected in
    let i = normalize_folder_path item in
    let below = starts_with_iff (s ++ root) i in
    (
      λ h. elim (Bool-cases (path_eq i s)) [
        | inl y ↦ inl ((path_eq_iff i s).0 y)
        | inr n ↦ let (rest, e) = below.0 (rw n at h) in inr (rest, e)
      ],
      λ u. elim u [
        | inl e ↦ rw (let q : path_eq i s ≡ true = (path_eq_iff i s).1 e in q) refl
        | inr (rest, e) ↦ ground (arith, below.1 (rest, e))
      ],
    )

-- Normalizing once more changes nothing.
abbrev pub IsSettled : String → Type 0
IsSettled p =
    normalize_folder_path (normalize_folder_path (codes p)) ≡ normalize_folder_path (codes p)

-- One of the selected folders has the item, in itself or further below.
abbrev pub InFolders : Option (List String) → List ℕ → Type 0
InFolders none item = Unit
InFolders (some paths) item =
    Any (λ p. Under (normalize_folder_path (codes p)) (normalize_folder_path item)) paths

equal_is_selected :
    (paths : List String) (item : List ℕ)
    → any_of
        (λ s. path_eq s (normalize_folder_path item))
        (map (λ p. normalize_folder_path (codes p)) paths)
      ≡ true
    → InFolders (some paths) item
equal_is_selected [] item h = absurd (cc h)
equal_is_selected (p ∷ ps) item h =
    elim (Bool-cases (path_eq (normalize_folder_path (codes p)) (normalize_folder_path item))) [
      | inl y ↦ inl (inl (sym ((path_eq_iff (normalize_folder_path (codes p)) _).0 y)))
      | inr n ↦ inr (equal_is_selected ps item (rw n at h))
    ]

matching_is_selected :
    (paths : List String) (item : List ℕ)
    → All IsSettled paths
    → (any_of (λ s. folder_path_matches s item) (map (λ p. normalize_folder_path (codes p)) paths)
        ≡ true)
      ↔ InFolders (some paths) item
matching_is_selected [] item h = (λ e. absurd (cc e), λ b. absurd b)
matching_is_selected (p ∷ ps) item (h, hs) =
    let s = normalize_folder_path (codes p) in
    let one = folder_path_matches_iff s item in
    let more = matching_is_selected ps item hs in
    elim (Bool-cases (folder_path_matches s item)) [
      | inl y ↦ rw y (λ e. inl (rw h at (one.0 y)), λ a. refl)
      | inr n ↦ rw n (
        λ e. inr (more.0 e),
        λ a. elim a [ inl u ↦ absurd (cc (n, one.1 (rw h u))) | inr u ↦ more.1 u ],
      )
    ]

-- Each configured folder path is settled.
abbrev pub AreSettled : Option (List String) → Type 0
AreSettled none = Unit
AreSettled (some paths) = All IsSettled paths

folder_selected_iff :
    (selected : Option (List String)) (item : List ℕ)
    → AreSettled selected
    → (folder_selected selected item ≡ true) ↔ InFolders selected item
unfolding folder_selected
folder_selected_iff none item h = (λ e. tt, λ u. refl)
folder_selected_iff (some paths) item h =
    let matching = matching_is_selected paths item h in
    elim (Bool-cases (
      any_of (λ s. path_eq s (normalize_folder_path item))
        (map (λ p. normalize_folder_path (codes p)) paths))) [
          | inl y ↦ rw y (λ e. equal_is_selected paths item y, λ a. refl)
          | inr n ↦ rw n matching
        ]

-- The date lies in the configured range, its ends included.
abbrev pub NotBefore : Option ℕ → ℕ → Type 0
NotBefore none sent = Unit
NotBefore (some start) sent = start ≤ sent

abbrev pub NotAfter : Option ℕ → ℕ → Type 0
NotAfter none sent = Unit
NotAfter (some end) sent = sent ≤ end

sent_before_iff :
    (start : Option ℕ) (sent : ℕ) → (sent_before start sent ≡ false) ↔ NotBefore start sent
unfolding sent_before
sent_before_iff none sent = (λ e. tt, λ u. refl)
sent_before_iff (some start) sent = ground arith

sent_after_iff : (end : Option ℕ) (sent : ℕ) → (sent_after end sent ≡ false) ↔ NotAfter end sent
unfolding sent_after
sent_after_iff none sent = (λ e. tt, λ u. refl)
sent_after_iff (some end) sent = ground arith

passes_iff :
    (folder before after : Bool)
    → ((if not folder then false else if before then false else if after then false else true)
        ≡ true)
      ↔ ((folder ≡ true) × (before ≡ false) × (after ≡ false))
passes_iff true false false = (λ e. (refl, refl, refl), λ h. refl)
passes_iff true false true = (λ e. absurd (cc e), λ h. absurd (cc (h.2)))
passes_iff true true after = (λ e. absurd (cc e), λ h. absurd (cc (h.1)))
passes_iff false before after = (λ e. absurd (cc e), λ h. absurd (cc (h.0)))

-- With settled folder paths an item passes the filters exactly if one of these folders has it, in
-- itself or further below, and it was sent neither before the start nor after the end. A folder
-- that is not configured excludes nothing, and so with the dates.
pub mail_item_matches_filters_iff :
    {F : Type 0} (c : Configuration F) (m : SourceMailItem)
    → AreSettled c.folder_paths
    → (mail_item_matches_filters c m ≡ true) ↔ (
        InFolders c.folder_paths (codes m.folder_path)
        × NotBefore c.start_date m.sent_at
        × NotAfter c.end_date m.sent_at)
unfolding mail_item_matches_filters
mail_item_matches_filters_iff c m h =
    let folder = folder_selected_iff c.folder_paths (codes m.folder_path) h in
    let before = sent_before_iff c.start_date m.sent_at in
    let after = sent_after_iff c.end_date m.sent_at in
    let passes =
      passes_iff (folder_selected c.folder_paths (codes m.folder_path))
        (sent_before c.start_date m.sent_at) (sent_after c.end_date m.sent_at) in
    (
      λ e. let (f, b, a) = passes.0 e in (folder.0 f, before.0 b, after.0 a),
      λ (f, b, a). passes.1 (folder.1 f, before.1 b, after.1 a),
    )

root_normal : normalize_folder_path (codes "/") ≡ root
unfolding normalize_folder_path
root_normal = refl

-- The root folder selects the root itself and what has two slashes in front, so no ordinary folder.
pub root_selects_only_itself :
    (item : List ℕ)
    → (folder_selected (some ("/" ∷ [])) item ≡ true) ↔ (
        (normalize_folder_path item ≡ root)
        ⊎ ((rest : List ℕ) × (normalize_folder_path item ≡ root ++ root ++ rest)))
root_selects_only_itself item =
    let root_of : normalize_folder_path (codes "/") ≡ root = root_normal in
    let (there, back) =
      folder_selected_iff (some ("/" ∷ [])) item (ap normalize_folder_path root_of, tt) in
    (
      λ e. elim (there e) [ inl u ↦ rw root_of at u | inr none_ ↦ absurd none_ ],
      λ u. back (inl (rw root_of u)),
    )
