-- ===== src/Verify/Outcome.antt =====
-- What the verification step reports, as filters of the uploaded documents.
use enterprise_vault_migrati.Prelude.{
  ◌≡◌, refl, String, Bool, true, false, Option, none, some, List, [], ◌∷◌, ◌&&◌, not, arith, ap,
  str_eq, if◌then◌else◌,
}
use enterprise_vault_migrati.Contracts.Documents.{TransformedDocument}
use enterprise_vault_migrati.Verify.{Checks, check_one, check_documents, same_signature}

-- The verdict on one document.
abbrev pub is_missing : Option TransformedDocument → Bool
is_missing none = true
is_missing (some t) = false

abbrev pub is_intact : TransformedDocument → Option TransformedDocument → Bool
is_intact d none = false
is_intact d (some t) = str_eq t.checksum d.checksum && same_signature t d

abbrev pub is_corrupt : TransformedDocument → Option TransformedDocument → Bool
is_corrupt d none = false
is_corrupt d (some t) = not (str_eq t.checksum d.checksum)

abbrev pub is_altered : TransformedDocument → Option TransformedDocument → Bool
is_altered d none = false
is_altered d (some t) = not (same_signature t d)

-- The identifiers of the documents on which a verdict holds, in order.
abbrev pub ids_where : (TransformedDocument → Bool) → List TransformedDocument → List String
ids_where p [] = []
ids_where p (d ∷ ds) = if p d then d.source_identifier ∷ ids_where p ds else ids_where p ds

-- The lists of `c` are filters of `ds` by the verdicts on what `fetch` finds.
pub record Sorts (fetch : String → Option TransformedDocument) (ds : List TransformedDocument)
    (c : Checks) : Type 0 where
  pub verified :
      c.verified_document_ids ≡ ids_where (λ d. is_intact d (fetch d.source_identifier)) ds
  pub failed :
      c.failed_document_ids ≡ ids_where (λ d. not (is_intact d (fetch d.source_identifier))) ds
  pub missing : c.missing_document_ids ≡ ids_where (λ d. is_missing (fetch d.source_identifier)) ds
  pub corrupt : c.checksum_mismatches ≡ ids_where (λ d. is_corrupt d (fetch d.source_identifier)) ds
  pub altered : c.metadata_mismatches ≡ ids_where (λ d. is_altered d (fetch d.source_identifier)) ds

module _ (fetch : String → Option TransformedDocument) where
  check_one-Sorts :
      (d : TransformedDocument) (o : Option TransformedDocument) (ds : List TransformedDocument)
      (c : Checks)
      → fetch d.source_identifier ≡ o
      → Sorts fetch ds c
      → Sorts fetch (d ∷ ds) (check_one d o c)
  unfolding check_one
  check_one-Sorts d none ds c e s = record {
    verified = rw e s.verified;
    failed = rw e (ap (λ ks. d.source_identifier ∷ ks) s.failed);
    missing = rw e (ap (λ ks. d.source_identifier ∷ ks) s.missing);
    corrupt = rw e s.corrupt;
    altered = rw e s.altered;
  }
  check_one-Sorts d (some t) ds c e s = record {
    verified = rw e (ground (arith, s.verified));
    failed = rw e (ground (arith, s.failed));
    missing = rw e (ground (arith, s.missing));
    corrupt = rw e (ground (arith, s.corrupt));
    altered = rw e (ground (arith, s.altered));
  }

  -- The loop verifies exactly the documents that the target holds with the checksum and the signature
  -- that they were sent with and fails the others; the missing ones are those that the target does not
  -- have, the checksum and metadata mismatches those that it has with another checksum or signature.
  pub check_documents-Sorts :
      (ds : List TransformedDocument) → Sorts fetch ds (check_documents fetch ds)
  unfolding check_documents
  check_documents-Sorts [] = record {
    verified = refl;
    failed = refl;
    missing = refl;
    corrupt = refl;
    altered = refl;
  }
  check_documents-Sorts (d ∷ ds) =
      check_one-Sorts d (fetch d.source_identifier) ds (check_documents fetch ds) refl
        (check_documents-Sorts ds)
