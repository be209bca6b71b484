-- ===== src/Target/Adapter/ReadBack.antt =====
-- What the target gives back of earlier uploads while later ones run, and the adapter as the port of
-- the engine's steps.
use enterprise_vault_migrati.Prelude.{
  ℕ, suc, ◌≡◌, refl, String, false, some, arith, ap, ◌∙◌, sym, inl, inr, Option-cases, str_eq,
}
use enterprise_vault_migrati.Runtime.{Runtime}
use enterprise_vault_migrati.Dict
use enterprise_vault_migrati.Dict.Laws.{get-put}
use enterprise_vault_migrati.Errors.{ok, err, Attempt, ◌>>=◌}
use enterprise_vault_migrati.Contracts.Documents.{TransformedDocument, UploadResult}
use enterprise_vault_migrati.Context.{TargetPort}
use enterprise_vault_migrati.Target.{Document, storage_get}
use enterprise_vault_migrati.Target.Adapter.{
  Adapter, Reading, document, upload_archived_file, get_uploaded_document, finalize_job, store,
  map_document,
}
use enterprise_vault_migrati.Target.Adapter.Idempotency.{settle_accepted}
use enterprise_vault_migrati.Target.Adapter.Replays.{
  limited, transfer_cases, upload_keeps_stored, upload_refused_changes_nothing,
}

-- The adapter as a port. A state carries the number of calls made, and `read` says what each call reads.
unfoldable pub adapter_port :
    {F : Type 0} → Runtime F → (ℕ → Reading F) → TargetPort F (ℕ × Adapter F)
adapter_port rt read = record {
  upload_archived_file = λ id d s.
      let (answer, a) = upload_archived_file rt (read s.0) id (document d) s.1 in
      ((answer >>= λ u. ok (some u)), (suc s.0, a));
  get_uploaded_document = λ id s. get_uploaded_document id s.1;
  finalize_job = λ id s. (suc s.0, finalize_job (read s.0) id s.1);
}

module _ {F : Type 0} where
  given_back :
      (k : String) (a : Adapter F) {d : TransformedDocument}
      → get_uploaded_document k a ≡ some d
      → ((e : Document) × (storage_get k a.document_storage ≡ some e))
        × (Dict.get k a.uploaded_documents ≡ some d)
  unfolding get_uploaded_document
  given_back k a h = elim (Option-cases (storage_get k a.document_storage)) [
    | inl missing ↦ absurd (ground (arith, missing))
    | inr found ↦ (found, ground (arith, found.1))
  ]

  give_back :
      (k : String) (a : Adapter F) {e : Document} {d : TransformedDocument}
      → storage_get k a.document_storage ≡ some e
      → Dict.get k a.uploaded_documents ≡ some d
      → get_uploaded_document k a ≡ some d
  unfolding get_uploaded_document
  give_back k a s h = ground (arith, s)

module _ {F : Type 0} (rt : Runtime F) (r : Reading F) (id : String) (t : TransformedDocument)
    (a : Adapter F) where
  accepted_records :
      {u : UploadResult}
      → (upload_archived_file rt r id (document t) a).0 ≡ ok u
      → (upload_archived_file rt r id (document t) a).1.uploaded_documents
        ≡ Dict.put t.source_identifier t a.uploaded_documents
  unfolding upload_archived_file store map_document
  accepted_records h = elim (transfer_cases rt r t a) [
    | inl c ↦
        let accepted = sym (ap (λ (q : Attempt F UploadResult × Adapter F). q.0) c.1) ∙ h in
        rw c.1 (settle_accepted rt r t (limited rt r a) _ accepted).0
    | inr x ↦ absurd (cc (h, x.1))
  ]

  kept_by_outcome :
      (o : Attempt F UploadResult) (k : String) {d : TransformedDocument}
      → (upload_archived_file rt r id (document t) a).0 ≡ o
      → str_eq t.source_identifier k ≡ false
      → get_uploaded_document k a ≡ some d
      → get_uploaded_document k (upload_archived_file rt r id (document t) a).1 ≡ some d
  kept_by_outcome (ok u) k p other h =
      let (s, g) = given_back k a h in
      give_back k _ (upload_keeps_stored rt r id (document t) a k s.1)
        (rw (accepted_records p, get-put, other) g)
  kept_by_outcome (err x) k p other h =
      let (s, g) = given_back k a h in
      rw (upload_refused_changes_nothing rt r id t a p) (give_back k (limited rt r a) s.1 g)

  -- An upload, accepted or refused, leaves what the target gives back under every other identifier.
  pub read_back_kept :
      (k : String) {d : TransformedDocument}
      → str_eq t.source_identifier k ≡ false
      → get_uploaded_document k a ≡ some d
      → get_uploaded_document k (upload_archived_file rt r id (document t) a).1 ≡ some d
  read_back_kept k other h = kept_by_outcome _ k refl other h
