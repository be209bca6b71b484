-- ===== src/Target/Adapter/Replays.antt =====
-- The target is authoritative: one document for a key, replays recognised, conflicts refused.
use enterprise_vault_migrati.Prelude.{
  ◌≡◌, refl, String, true, false, Option, none, some, arith, str_eq_iff, ap, ◌∙◌, is_some, sym, ◌⊎◌,
  inl, inr, Bool-cases, Option-cases,
}
use enterprise_vault_migrati.Runtime.{Runtime}
use enterprise_vault_migrati.Dict
use enterprise_vault_migrati.Dict.Laws.{get-put, get-put_self}
use enterprise_vault_migrati.Errors.{ok, err, Exception, Attempt}
use enterprise_vault_migrati.Contracts.Documents.{TransformedDocument, UploadResult}
use enterprise_vault_migrati.Target.{Document, document_eq, storage_add, storage_get, throttled}
use enterprise_vault_migrati.Target.RateLimiter.{admitted, acquire_delay_seconds}
use enterprise_vault_migrati.Target.Adapter.{
  Adapter, Reading, Payload, document, other_object, map_document, build_upload_result, store,
  settle, transfer, upload_archived_file, get_uploaded_document,
}
use enterprise_vault_migrati.Target.Adapter.Idempotency.{
  storage_after, settle_storage, settle_refused, settle_accepted, settle_matches,
}

module _ {F : Type 0} (rt : Runtime F) where
  -- No throttling and no injected failure at this call.
  abbrev pub IsClear : Reading F → TransformedDocument → Adapter F → Type 0
  IsClear r t a = (admitted rt a.rate_limiter r.now ≡ true) × (r.failure t ≡ none)

  -- The adapter when the limiter has been asked.
  abbrev pub limited : Reading F → Adapter F → Adapter F
  limited r a = record a { rate_limiter = (acquire_delay_seconds rt a.rate_limiter r.now).1 }

  pub transfer_cases :
      (r : Reading F) (t : TransformedDocument) (a : Adapter F)
      → (IsClear r t a × (transfer rt r t a ≡ store rt r t (limited r a)))
        ⊎ ((x : Exception F) × (transfer rt r t a ≡ (err x, limited r a)))
  unfolding transfer admitted
  transfer_cases r t a =
      elim (Bool-cases
        (rt.float_lt rt.zero_float (acquire_delay_seconds rt a.rate_limiter r.now).0)) [
          | inl late ↦
              inr (throttled rt (acquire_delay_seconds rt a.rate_limiter r.now).0, rw late refl)
          | inr due ↦ elim (Option-cases (r.failure t)) [
            | inl fine ↦ inl ((rw due refl, fine), rw (due, fine) refl)
            | inr f ↦ inr (f.0, rw (due, f.1) refl)
          ]
        ]

module _ {F : Type 0} (rt : Runtime F) where
  storage_after_keeps :
      (r : Reading F) (t : TransformedDocument) (a : Adapter F) (o : Option Document) (key : String)
      {d : Document}
      → storage_get t.source_identifier a.document_storage ≡ o
      → storage_get key a.document_storage ≡ some d
      → storage_get key (storage_after rt r t a o) ≡ some d
  unfolding storage_after storage_get storage_add map_document
  storage_after_keeps r t a none key p h = ground (
    arith,
    get-put t.source_identifier key (map_document t) a.document_storage,
    str_eq_iff t.source_identifier key,
  )
  storage_after_keeps r t a (some e) key p h = h

  store_keeps :
      (r : Reading F) (t : TransformedDocument) (a : Adapter F) (key : String) {d : Document}
      → storage_get key a.document_storage ≡ some d
      → storage_get key (store rt r t a).1.document_storage ≡ some d
  unfolding store map_document
  store_keeps r t a key h =
      let o = storage_get t.source_identifier a.document_storage in
      rw (settle_storage rt r t a o) (storage_after_keeps r t a o key refl h)

  -- No upload, accepted or refused, with any payload, changes or loses a stored document.
  pub upload_keeps_stored :
      (r : Reading F) (id : String) (p : Payload) (a : Adapter F) (key : String) {d : Document}
      → storage_get key a.document_storage ≡ some d
      → storage_get key (upload_archived_file rt r id p a).1.document_storage ≡ some d
  unfolding upload_archived_file
  upload_keeps_stored r id other_object a key h = h
  upload_keeps_stored r id (document t) a key h = elim (transfer_cases rt r t a) [
    | inl c ↦ rw c.1 (store_keeps r t (limited rt r a) key h)
    | inr x ↦ rw x.1 h
  ]

  -- A refused upload leaves the documents, the records of what was uploaded and the session as they
  -- were: only the rate limiter has moved on.
  pub upload_refused_changes_nothing :
      (r : Reading F) (id : String) (t : TransformedDocument) (a : Adapter F) {x : Exception F}
      → (upload_archived_file rt r id (document t) a).0 ≡ err x
      → (upload_archived_file rt r id (document t) a).1 ≡ limited rt r a
  unfolding upload_archived_file store
  upload_refused_changes_nothing r id t a h = elim (transfer_cases rt r t a) [
    | inl c ↦ rw c.1 (
        settle_refused rt r t (limited rt r a) _
          (sym (ap (λ (q : Attempt F UploadResult × Adapter F). q.0) c.1) ∙ h))
    | inr x ↦ rw x.1 refl
  ]

  -- The target holds a document equal to the one that `t` maps to, and gives `t` back.
  abbrev pub Holds : TransformedDocument → Adapter F → Type 0
  Holds t b =
      ((e : Document) × (storage_get t.source_identifier b.document_storage ≡ some e)
        × (document_eq e (map_document t) ≡ true))
      × (get_uploaded_document t.source_identifier b ≡ some t)

  read_back :
      (t : TransformedDocument) (b : Adapter F) (d : Dict.Dict TransformedDocument) {e : Document}
      → storage_get t.source_identifier b.document_storage ≡ some e
      → b.uploaded_documents ≡ Dict.put t.source_identifier t d
      → get_uploaded_document t.source_identifier b ≡ some t
  unfolding get_uploaded_document
  read_back t b d s p = rw (s, p) (get-put_self t.source_identifier t d)

  settle-Holds :
      (r : Reading F) (t : TransformedDocument) (a : Adapter F) (o : Option Document)
      {u : UploadResult}
      → storage_get t.source_identifier a.document_storage ≡ o
      → (settle rt r t a o).0 ≡ ok u
      → Holds t (settle rt r t a o).1
  unfolding storage_after storage_add map_document
  settle-Holds r t a none p h =
      let s : storage_get t.source_identifier (settle rt r t a none).1.document_storage
          ≡ some (map_document t) =
        rw (settle_storage rt r t a none) (
          unfold storage_get in
          get-put_self t.source_identifier (map_document t) a.document_storage) in
      (
        (map_document t, s, settle_matches rt r t a none h),
        read_back t _ _ s (settle_accepted rt r t a none h).0,
      )
  settle-Holds r t a (some e) p h =
      let s : storage_get t.source_identifier (settle rt r t a (some e)).1.document_storage
          ≡ some e =
        rw (settle_storage rt r t a (some e)) p in
      (
        (e, s, settle_matches rt r t a (some e) h),
        read_back t _ _ s (settle_accepted rt r t a (some e) h).0,
      )

  -- After an accepted upload the target holds the document and gives it back as it was sent. The
  -- result names the source identifier, and is a replay exactly if the key was taken before.
  pub upload_accepted :
      (r : Reading F) (id : String) (t : TransformedDocument) (a : Adapter F) {u : UploadResult}
      → (upload_archived_file rt r id (document t) a).0 ≡ ok u
      → Holds t (upload_archived_file rt r id (document t) a).1
        × (u
            ≡ build_upload_result rt t t.source_identifier
                (is_some (storage_get t.source_identifier a.document_storage)))
  unfolding upload_archived_file store map_document
  upload_accepted r id t a h = elim (transfer_cases rt r t a) [
    | inl c ↦
        let o = storage_get t.source_identifier a.document_storage in
        let accepted = sym (ap (λ (q : Attempt F UploadResult × Adapter F). q.0) c.1) ∙ h in
        rw c.1 (
          settle-Holds r t (limited rt r a) o refl accepted,
          (settle_accepted rt r t (limited rt r a) o accepted).1,
        )
    | inr x ↦ absurd (cc (h, x.1))
  ]

  -- A document that is accepted under a free key is stored as it is mapped.
  pub upload_new :
      (r : Reading F) (id : String) (t : TransformedDocument) (a : Adapter F) {u : UploadResult}
      → (upload_archived_file rt r id (document t) a).0 ≡ ok u
      → u.idempotent_replay ≡ false
      → storage_get t.source_identifier
          (upload_archived_file rt r id (document t) a).1.document_storage
        ≡ some (map_document t)
  unfolding upload_archived_file store map_document storage_after storage_add build_upload_result
  upload_new r id t a {u} h new = elim (transfer_cases rt r t a) [
    | inl c ↦ elim (Option-cases (storage_get t.source_identifier a.document_storage)) [
      | inl free ↦
          rw (c.1, settle_storage, free)
            (unfold storage_get in
              get-put_self t.source_identifier (map_document t) a.document_storage)
      | inr taken ↦
          let replay =
            ap (λ (v : UploadResult). v.idempotent_replay) (upload_accepted r id t a h).1 in
          let clash = sym new ∙ replay ∙ ap is_some taken.1 in absurd (ground (arith, clash))
    ]
    | inr x ↦ absurd (cc (h, x.1))
  ]
