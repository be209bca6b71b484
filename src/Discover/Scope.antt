-- ===== src/Discover/Scope.antt =====
-- Discovery and extraction together: which archives are migrated, and what is counted as filtered.
use enterprise_vault_migrati.Prelude.{
  ℕ, ◌+◌, ◌≡◌, refl, sym, ap, ◌∙◌, String, Bool, true, false, Option, none, some, List, [], ◌∷◌,
  map, arith, length, length-filter_if, filter_if, All, AllDistinct, Some, text_in, str_eq_refl,
  Bool-cases, inl, inr, if◌then◌else◌, max, All-map, str_eq, str_eq_iff, filter_if_twice,
  length-map,
}
use mathlib.Core.List.{map-append}
use enterprise_vault_migrati.Runtime.{Runtime}
use enterprise_vault_migrati.Errors.{ok}
use enterprise_vault_migrati.Contracts.{Metrics}
use enterprise_vault_migrati.Contracts.Source.{SourceVaultStore, SourceArchive}
use enterprise_vault_migrati.Contracts.Documents.{ArchiveDiscoveryResult, ExtractionResult}
use enterprise_vault_migrati.Context.{StepContext, known_metrics}
use enterprise_vault_migrati.Discover.{
  discover, resolve_vault_stores, archive_names_of, build_discovery_result, allowed_names,
  restricted, filtered_count, resolve_metrics,
}
use enterprise_vault_migrati.Extract.{
  extract, finish_extract, extraction_of, excluded_count, known_filtered,
}
use enterprise_vault_migrati.Extract.Loops.{select_vault_stores}
use enterprise_vault_migrati.Extract.Described.{extraction-Describes}
use enterprise_vault_migrati.Extract.Stores.{select_vault_stores_all}
use enterprise_vault_migrati.Extract.Archives.{listed, archives_of}

-- A name that the configuration allows; it allows each one where it lists none.
abbrev pub allows : Option (List String) → String → Bool
allows none name = true
allows (some names) name = text_in name names

allowed_names-eq :
    (o : Option (List String)) (names : List String)
    → allowed_names o names ≡ filter_if (allows o) names
unfolding allowed_names
allowed_names-eq none names = sym (all_pass names)
  where
    all_pass : (xs : List String) → filter_if (λ x. true) xs ≡ xs
    all_pass [] = refl
    all_pass (x ∷ xs) = ap (λ ys. x ∷ ys) (all_pass xs)
allowed_names-eq (some allowed) names = refl

text_in-filter_if :
    (p : String → Bool) (k : String) (xs : List String)
    → text_in k (filter_if p xs) ≡ (if p k then text_in k xs else false)
text_in-filter_if p k [] = ground arith
text_in-filter_if p k (x ∷ xs) = elim (Bool-cases (str_eq x k)) [
  | inl y ↦
      let same : p x ≡ p k = ap p ((str_eq_iff x k).0 y) in
      ground (arith, same, text_in-filter_if p k xs, y)
  | inr n ↦ ground (arith, text_in-filter_if p k xs, n)
]

filter-agree {ℓ} :
    {A : Type ℓ} (p q : A → Bool) (xs : List A)
    → All (λ x. p x ≡ q x) xs
    → filter_if p xs ≡ filter_if q xs
filter-agree p q [] h = refl
filter-agree p q (x ∷ xs) (h, hs) = rw (h, filter-agree p q xs hs) refl

abbrev names_of : List SourceArchive → List String
names_of archives = map (λ (a : SourceArchive). a.name) archives

archive_names-eq :
    (stores : List SourceVaultStore) → archive_names_of stores ≡ names_of (archives_of stores)
unfolding archive_names_of
archive_names-eq [] = refl
archive_names-eq (s ∷ stores) =
    rw
      (
        archive_names-eq stores,
        map-append (λ (a : SourceArchive). a.name) s.archives (archives_of stores),
      )
      refl

own_names :
    (archives : List SourceArchive) (names : List String)
    → ((k : String) → text_in k (names_of archives) ≡ true → text_in k names ≡ true)
    → All (λ (a : SourceArchive). text_in a.name names ≡ true) archives
own_names [] names h = tt
own_names (a ∷ archives) names h = (
  h a.name (rw (str_eq_refl a.name) refl),
  own_names archives names (λ k e. h k (ground (arith, e))),
)

-- Listing by the allowed names is choosing the archives of an allowed name.
listed_allowed :
    (p : String → Bool) (archives : List SourceArchive)
    → listed (filter_if p (names_of archives)) archives
      ≡ filter_if (λ (a : SourceArchive). p a.name) archives
listed_allowed p archives =
    filter-agree (λ (a : SourceArchive). text_in a.name (filter_if p (names_of archives)))
      (λ (a : SourceArchive). p a.name) archives
      (All-map (λ (a : SourceArchive). text_in a.name (names_of archives) ≡ true) _
        (λ a h. text_in-filter_if p a.name (names_of archives) ∙ ground (arith, h)) archives
        (own_names archives (names_of archives) (λ k h. h)))

allowed_twice :
    (o : Option (List String)) (names : List String)
    → allowed_names o (allowed_names o names) ≡ allowed_names o names
unfolding allowed_names
allowed_twice none names = refl
allowed_twice (some allowed) names = filter_if_twice (λ n. text_in n allowed) names

none_excluded :
    (o : Option (List String)) (names : List String) → excluded_count o (allowed_names o names) ≡ 0
unfolding excluded_count allowed_names
none_excluded none names = refl
none_excluded (some allowed) names = omega (
  arith,
  length-filter_if (λ n. text_in n allowed) (filter_if (λ n. text_in n allowed) names),
  ap length (filter_if_twice (λ n. text_in n allowed) names),
)

filtered_counted :
    (o : Option (List String)) (d : ArchiveDiscoveryResult)
    → (restricted o d).archive_count + filtered_count o d ≡ length d.archive_names
unfolding restricted filtered_count allowed_names
filtered_counted none d = omega arith
filtered_counted (some allowed) d =
    omega (arith, length-filter_if (λ n. text_in n allowed) d.archive_names)

listed-eq :
    (o : Option (List String)) (stores : List SourceVaultStore)
    → listed (allowed_names o (allowed_names o (archive_names_of stores))) (archives_of stores)
      ≡ filter_if (λ (a : SourceArchive). allows o a.name) (archives_of stores)
listed-eq o stores =
    ap (λ ns. listed ns (archives_of stores))
      (allowed_twice o (archive_names_of stores)
        ∙ allowed_names-eq o (archive_names_of stores)
        ∙ ap (filter_if (allows o)) (archive_names-eq stores))
    ∙ listed_allowed (allows o) (archives_of stores)

max-counts :
    (o : Option (List String)) (stores : List SourceVaultStore) (a b e : ℕ)
    → a + b ≡ length (archive_names_of stores)
    → e ≡ 0
    → a + max b e ≡ length (archives_of stores)
max-counts o stores a b e h z = omega (
  arith,
  h,
  z,
  ap length (archive_names-eq stores),
  length-map (λ (a : SourceArchive). a.name) (archives_of stores),
)

module _ {F : Type 0} (rt : Runtime F) where
  -- `c` has in its extraction result the allowed archives of the stores, and its counts of allowed
  -- and of filtered archives add up to all of them.
  pub record InScope (o : Option (List String)) (stores : List SourceVaultStore) (c : StepContext F)
      : Type 0 where
    pub allowed_only :
        Some
          (λ (r : ExtractionResult).
            r.discovered_archives
            ≡ filter_if (λ (a : SourceArchive). allows o a.name) (archives_of stores))
          c.extraction_result
    pub all_counted :
        Some
          (λ (d : ArchiveDiscoveryResult).
            Some
              (λ (m : Metrics F).
                d.archive_count + m.filtered_archives ≡ length (archives_of stores))
              c.execution_context.metrics)
          c.discovery_result

  -- In stores of distinct names, the extraction behind a discovery returns a context, whose result
  -- has exactly the archives of all stores that the configuration allows, in order, and whose counts
  -- of discovered and of filtered archives add up to all archives: none is filtered twice.
  pub discover-InScope :
      (own generated own2 generated2 : Option (List SourceVaultStore)) (c : StepContext F)
      → let stores = resolve_vault_stores own generated in
        AllDistinct (map (λ (s : SourceVaultStore). s.name) stores)
        → (c' : StepContext F) × (extract rt own2 generated2 (discover rt own generated c) ≡ ok c')
          × InScope c.execution_context.configuration.archive_names stores c'
  unfolding discover extract finish_extract resolve_metrics known_filtered known_metrics
  discover-InScope own generated own2 generated2 c h =
      let stores = resolve_vault_stores own generated in
      let k = c.execution_context.configuration in
      let d = restricted k.archive_names (build_discovery_result stores) in
      let selected = select_vault_stores stores d.vault_store_names in
      let c' =
        finish_extract rt (discover rt own generated c) selected d
          (extraction_of rt selected d k) in
      let o = k.archive_names in
      let names = archive_names_of stores in
      (
        c',
        refl,
        record {
          allowed_only =
              (extraction-Describes rt selected d k).archives_listed
              ∙ ap (λ ss. listed (allowed_names o (allowed_names o names)) (archives_of ss))
                  (select_vault_stores_all stores h)
              ∙ listed-eq o stores;
          all_counted =
              max-counts o stores _ _ _ (filtered_counted o (build_discovery_result stores))
                (none_excluded o names);
        },
      )
