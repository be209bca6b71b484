-- ===== src/Upload/Unique.antt =====
-- The documents for which the target is asked: one for each source identifier.
use enterprise_vault_migrati.Prelude.{
  AllDistinct, ◌≡◌, String, false, List, [], ◌∷◌, arith, str_eq_iff, str_eq_refl, text_in,
  Bool-cases, inl, inr, if◌then◌else◌,
}
use enterprise_vault_migrati.Contracts.Documents.{TransformedDocument}
use enterprise_vault_migrati.Upload.Emission.{unique_documents}

abbrev pub identifiers : List TransformedDocument → List String
identifiers [] = []
identifiers (d ∷ ds) = d.source_identifier ∷ identifiers ds

unique-text_in :
    (seen : List String) (ds : List TransformedDocument) (k : String)
    → text_in k (identifiers (unique_documents seen ds))
      ≡ (if text_in k seen then false else text_in k (identifiers ds))
unfolding unique_documents
unique-text_in seen [] k = ground arith
unique-text_in seen (d ∷ ds) k = ground (
  arith,
  str_eq_iff d.source_identifier k,
  unique-text_in seen ds k,
  unique-text_in (d.source_identifier ∷ seen) ds k,
)

unique-AllDistinct :
    (seen : List String) (ds : List TransformedDocument)
    → AllDistinct (identifiers (unique_documents seen ds))
unfolding unique_documents
unique-AllDistinct seen [] = tt
unique-AllDistinct seen (d ∷ ds) = elim (Bool-cases (text_in d.source_identifier seen)) [
  | inl old ↦ rw old (unique-AllDistinct seen ds)
  | inr new ↦ rw new (
    ground (
      arith,
      str_eq_refl d.source_identifier,
      unique-text_in (d.source_identifier ∷ seen) ds d.source_identifier,
    ),
    unique-AllDistinct (d.source_identifier ∷ seen) ds,
  )
]

-- The documents that are sent to the target have distinct source identifiers, and these are the
-- identifiers of the batch.
pub unique_documents_once :
    (ds : List TransformedDocument) (k : String)
    → AllDistinct (identifiers (unique_documents [] ds))
      × (text_in k (identifiers (unique_documents [] ds)) ≡ text_in k (identifiers ds))
unique_documents_once ds k = (unique-AllDistinct [] ds, unique-text_in [] ds k)
