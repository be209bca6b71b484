-- ===== src/Target/Adapter/Idempotency.antt =====
-- What the locked block of an upload does to the target, by what the storage has under the key.
use enterprise_vault_migrati.Prelude.{
  ◌≡◌, refl, true, false, Option, none, some, arith, ap, ◌∙◌, is_some, ◌≢◌, or_else,
}
use enterprise_vault_migrati.Runtime.{Runtime}
use enterprise_vault_migrati.Dict
use enterprise_vault_migrati.Errors.{ok, err, Exception, Attempt}
use enterprise_vault_migrati.Contracts.Documents.{TransformedDocument, UploadResult}
use enterprise_vault_migrati.Target.{Document, document_eq, storage_add, upload_document}
use enterprise_vault_migrati.Target.Storage.{document_eq_refl}
use enterprise_vault_migrati.Target.Adapter.{
  Adapter, Reading, map_document, ensure_session, build_upload_result, attach, added, prepared,
  add_document, settle,
}

module _ {F : Type 0} where
  ensure_session_keeps :
      (r : Reading F) (a : Adapter F)
      → ((ensure_session r a).document_storage ≡ a.document_storage)
        × ((ensure_session r a).uploaded_documents ≡ a.uploaded_documents)
  unfolding ensure_session
  ensure_session_keeps r a = ground arith

  session-ensure_session :
      (r : Reading F) (a : Adapter F) → is_some (ensure_session r a).active_session ≡ true
  unfolding ensure_session
  session-ensure_session r a = ground arith

  attach_keeps :
      (d : Document) (a : Adapter F) {b : Adapter F}
      → attach d a ≡ ok b
      → (b.document_storage ≡ a.document_storage) × (b.uploaded_documents ≡ a.uploaded_documents)
  unfolding attach
  attach_keeps d a h = ground arith

  attach_no_error :
      (d : Document) (a : Adapter F) {e : Exception F}
      → is_some a.active_session ≡ true
      → attach d a ≢ err e
  unfolding attach upload_document
  attach_no_error d a s h = ground arith

module _ {F : Type 0} (rt : Runtime F) (r : Reading F) (t : TransformedDocument)
    (a : Adapter F) where
  -- Adding a document that is not stored always succeeds.
  added_result :
      (c : Adapter F) (m : Attempt F (Adapter F))
      → is_some c.active_session ≡ true
      → attach (map_document t) c ≡ m
      → ((added rt t c m).0 ≡ ok (build_upload_result rt t t.source_identifier false))
        × ((added rt t c m).1.document_storage ≡ c.document_storage)
        × ((added rt t c m).1.uploaded_documents ≡ c.uploaded_documents)
  unfolding added
  added_result c (ok c') s p =
      (refl, (attach_keeps (map_document t) c p).0, (attach_keeps (map_document t) c p).1)
  added_result c (err e) s p = absurd (attach_no_error (map_document t) c s p)

  add_document_result :
      ((add_document rt r t a).0 ≡ ok (build_upload_result rt t t.source_identifier false))
      × ((add_document rt r t a).1.document_storage
          ≡ storage_add (map_document t) a.document_storage)
      × ((add_document rt r t a).1.uploaded_documents
          ≡ Dict.put t.source_identifier t a.uploaded_documents)
  unfolding add_document prepared
  add_document_result =
      let (u, s, d) =
        added_result (prepared rt r t a) (attach (map_document t) (prepared rt r t a))
          (session-ensure_session r a) refl in
      let (k, l) = ensure_session_keeps r a in
      (u, s ∙ ap (storage_add (map_document t)) k, d ∙ ap (Dict.put t.source_identifier t) l)

  unfoldable pub storage_after : Option Document → Dict.Dict Document
  storage_after none = storage_add (map_document t) a.document_storage
  storage_after (some e) = a.document_storage

  -- The storage after the locked block: one more document if the key was free, else what it was.
  pub settle_storage :
      (o : Option Document) → (settle rt r t a o).1.document_storage ≡ storage_after o
  unfolding settle storage_after
  settle_storage none = add_document_result.1
  settle_storage (some e) = ground arith

  -- A refused block changes nothing.
  pub settle_refused :
      (o : Option Document) {x : Exception F}
      → (settle rt r t a o).0 ≡ err x
      → (settle rt r t a o).1 ≡ a
  unfolding settle
  settle_refused none h = ground (arith, add_document_result.0)
  settle_refused (some e) h = ground arith

  pub settle_accepted :
      (o : Option Document) {u : UploadResult}
      → (settle rt r t a o).0 ≡ ok u
      → ((settle rt r t a o).1.uploaded_documents
          ≡ Dict.put t.source_identifier t a.uploaded_documents)
        × (u ≡ build_upload_result rt t t.source_identifier (is_some o))
  unfolding settle
  settle_accepted none h = ground (arith, add_document_result.0, add_document_result.2)
  settle_accepted (some e) h = ground arith

  pub settle_matches :
      (o : Option Document) {u : UploadResult}
      → (settle rt r t a o).0 ≡ ok u
      → document_eq (or_else o (map_document t)) (map_document t) ≡ true
  unfolding settle
  settle_matches none h = document_eq_refl (map_document t)
  settle_matches (some e) h = ground arith
