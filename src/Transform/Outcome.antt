-- ===== src/Transform/Outcome.antt =====
-- Each extracted item is transformed in its place or reported as failed.
use mathlib.Core.List.{append_assoc, append-nil}
use enterprise_vault_migrati.Prelude.{
  ℕ, ◌+◌, ◌≡◌, refl, sym, String, Option, none, some, List, [], ◌∷◌, ◌++◌, arith, length,
  length-append, Bool-cases, inl, inr,
}
use enterprise_vault_migrati.Runtime.{Runtime}
use enterprise_vault_migrati.Errors.{ok, err, Attempt, Returns, Returns-bind, Returns-map}
use enterprise_vault_migrati.Contracts.Source.{SourceVaultStore, SourceMailItem}
use enterprise_vault_migrati.Contracts.Documents.{TransformedDocument}
use enterprise_vault_migrati.Rehydration.{RehydratedContent, Rehydrator, rehydrate}
use enterprise_vault_migrati.Rehydration.Integrity.{
  CacheIntact, PartsIntact, Rehydrated, rehydrate-Rehydrated,
}
use enterprise_vault_migrati.Transform.Document.{transform_mail_item}
use enterprise_vault_migrati.Transform.Loop.{
  Place, Transformation, address_of, find_in_stores, found, resolve_mail_item_context,
  is_validation_error, after_rehydration, transform_item, transform_items,
}

module _ {F : Type 0} (rt : Runtime F) (stores : List SourceVaultStore) where
  -- The items, their documents and the failed identifiers: an item with intact parts that is found
  -- in a place may become the document of that place, any item may fail.
  pub data Transforms : List SourceMailItem → List TransformedDocument → List String → Type 0 where
    no_items : Transforms [] [] []
    transformed :
        {ms : List SourceMailItem} {ds : List TransformedDocument} {fs : List String}
        (m : SourceMailItem) (place : Place)
        → find_in_stores m.internet_message_id stores ≡ some place
        → PartsIntact rt m.content_parts
        → Transforms ms ds fs
        → Transforms (m ∷ ms) (transform_mail_item rt place.0 (address_of place.1) m ∷ ds) fs
    failed :
        {ms : List SourceMailItem} {ds : List TransformedDocument} {fs : List String}
        (m : SourceMailItem)
        → Transforms ms ds fs
        → Transforms (m ∷ ms) ds (m.internet_message_id ∷ fs)

  -- `t'` adds to `t` the documents and the failures of the items `ms`.
  pub record Done (ms : List SourceMailItem) (t t' : Transformation) : Type 0 where
    pub documents : List TransformedDocument
    pub failures : List String
    pub transforms : Transforms ms documents failures
    pub documents_added : t'.transformed_documents ≡ t.transformed_documents ++ documents
    pub failures_added : t'.failed_item_identifiers ≡ t.failed_item_identifiers ++ failures
    pub failures_counted : t'.failed_items ≡ t.failed_items + length failures
    pub still_intact : CacheIntact rt t'.rehydrator.cache

  no_items-Done : (t : Transformation) → CacheIntact rt t.rehydrator.cache → Done [] t t
  no_items-Done t a = record {
    documents = [];
    failures = [];
    transforms = no_items;
    documents_added = sym (append-nil t.transformed_documents);
    failures_added = sym (append-nil t.failed_item_identifiers);
    failures_counted = omega arith;
    still_intact = a;
  }

  Done-trans :
      (m : SourceMailItem) (ms : List SourceMailItem) (t u v : Transformation)
      → Done (m ∷ []) t u
      → Done ms u v
      → Done (m ∷ ms) t v
  Done-trans m ms t u v h k = record {
    documents = h.documents ++ k.documents;
    failures = h.failures ++ k.failures;
    transforms = joined h.transforms k.transforms;
    documents_added = simp (k.documents_added, h.documents_added, append_assoc);
    failures_added = simp (k.failures_added, h.failures_added, append_assoc);
    failures_counted =
        omega (arith, h.failures_counted, k.failures_counted, length-append h.failures k.failures);
    still_intact = k.still_intact;
  }
    where
      joined :
          {ds es : List TransformedDocument} {fs gs : List String}
          → Transforms (m ∷ []) ds fs
          → Transforms ms es gs
          → Transforms (m ∷ ms) (ds ++ es) (fs ++ gs)
      joined (transformed m place e i no_items) k = transformed m place e i k
      joined (failed m no_items) k = failed m k

  after_rehydration-Done :
      (m : SourceMailItem) (place : Place) (t : Transformation)
      (q : Attempt F RehydratedContent × Rehydrator)
      → find_in_stores m.internet_message_id stores ≡ some place
      → Returns (Rehydrated rt m) q.0
      → CacheIntact rt q.1.cache
      → Returns (Done (m ∷ []) t) (after_rehydration rt place m q t)
  unfolding after_rehydration
  after_rehydration-Done m (a, b) t (ok content, r) e h i = record {
    documents = transform_mail_item rt a (address_of b) m ∷ [];
    failures = [];
    transforms = transformed m (a, b) e h.parts_intact no_items;
    documents_added = refl;
    failures_added = sym (append-nil t.failed_item_identifiers);
    failures_counted = omega arith;
    still_intact = i;
  }
  after_rehydration-Done m (a, b) t (err x, r) e h i =
      elim (Bool-cases (is_validation_error x.error_class)) [
        | inr other ↦ rw other tt
        | inl refused ↦ rw refused (record {
          documents = [];
          failures = m.internet_message_id ∷ [];
          transforms = failed m no_items;
          documents_added = sym (append-nil t.transformed_documents);
          failures_added = refl;
          failures_counted = omega arith;
          still_intact = i;
        })
      ]

  found-Returns : (o : Option Place) → Returns (λ place. o ≡ some place) (found {F = F} o)
  unfolding found
  found-Returns none = tt
  found-Returns (some place) = refl

  transform_item-Done :
      (started completed : ℕ) (m : SourceMailItem) (t : Transformation)
      → CacheIntact rt t.rehydrator.cache
      → Returns (Done (m ∷ []) t) (transform_item rt stores started completed m t)
  unfolding transform_item resolve_mail_item_context
  transform_item-Done started completed m t i =
      let (h, k) = rehydrate-Rehydrated rt m started completed t.rehydrator i in
      Returns-bind (λ place. find_in_stores m.internet_message_id stores ≡ some place)
        (Done (m ∷ []) t) (found (find_in_stores m.internet_message_id stores)) _
        (found-Returns (find_in_stores m.internet_message_id stores))
        (λ place e.
          after_rehydration-Done m place t (rehydrate rt m started completed t.rehydrator) e h k)

  pub transform_items-Done :
      (started completed : ℕ) (ms : List SourceMailItem) (t : Transformation)
      → CacheIntact rt t.rehydrator.cache
      → Returns (Done ms t) (transform_items rt stores started completed ms t)
  unfolding transform_items
  transform_items-Done started completed [] t i = no_items-Done t i
  transform_items-Done started completed (m ∷ ms) t i =
      Returns-bind (Done (m ∷ []) t) (Done (m ∷ ms) t)
        (transform_item rt stores started completed m t) _
        (transform_item-Done started completed m t i)
        (λ u h.
          Returns-map (Done ms u) (Done (m ∷ ms) t)
            (transform_items rt stores started completed ms u) (λ v k. Done-trans m ms t u v h k)
            (transform_items-Done started completed ms u h.still_intact))

  pub length-Transforms :
      {ms : List SourceMailItem} {ds : List TransformedDocument} {fs : List String}
      → Transforms ms ds fs
      → length ds + length fs ≡ length ms
  length-Transforms no_items = omega arith
  length-Transforms (transformed m place e i h) = omega (arith, length-Transforms h)
  length-Transforms (failed m h) = omega (arith, length-Transforms h)
