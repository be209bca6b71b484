-- ===== src/Target/Adapter/History.antt =====
-- What becomes of a document that is sent again, whatever was sent to the target in between.
use enterprise_vault_migrati.Prelude.{
  ◌≡◌, refl, String, Bool, true, false, some, List, [], ◌∷◌, arith, ap, ◌∙◌, sym, subst, inl, inr,
  Bool-cases,
}
use enterprise_vault_migrati.Runtime.{Runtime}
use enterprise_vault_migrati.Errors.{ok, err, Attempt, idempotency_conflict}
use enterprise_vault_migrati.Contracts.Documents.{TransformedDocument, UploadResult}
use enterprise_vault_migrati.Target.{Document, document_eq, storage_get}
use enterprise_vault_migrati.Target.RateLimiter.{admitted}
use enterprise_vault_migrati.Target.Adapter.{
  Adapter, Reading, Payload, document, map_document, build_upload_result, store, settle,
  upload_archived_file, transfer,
}
use enterprise_vault_migrati.Target.Adapter.Replays.{
  IsClear, limited, transfer_cases, upload_keeps_stored, upload_accepted, upload_new,
}

module _ {F : Type 0} (rt : Runtime F) where
  -- The target after uploads of any payloads, accepted or refused.
  pub after : List (Reading F × String × Payload) → Adapter F → Adapter F
  after [] a = a
  after ((r, id, p) ∷ calls) a = after calls (upload_archived_file rt r id p a).1

  after_keeps :
      (calls : List (Reading F × String × Payload)) (a : Adapter F) (key : String) {d : Document}
      → storage_get key a.document_storage ≡ some d
      → storage_get key (after calls a).document_storage ≡ some d
  unfolding after
  after_keeps [] a key h = h
  after_keeps ((r, id, p) ∷ calls) a key h =
      after_keeps calls (upload_archived_file rt r id p a).1 key
        (upload_keeps_stored rt r id p a key h)

  -- The answer to an upload under a key that is taken by `e`: the throttling or the injected failure
  -- where there is one, or else a replay of an equal document and a conflict for another one.
  abbrev pub Recognised :
      Reading F
      → TransformedDocument
      → Adapter F
      → Bool
      → Attempt F UploadResult × Adapter F
      → Type 0
  Recognised r t b same (ok u, b') =
      IsClear rt r t b × (same ≡ true) × (u ≡ build_upload_result rt t t.source_identifier true)
  Recognised r t b same (err x, b') =
      (IsClear rt r t b → (same ≡ false) × (x.error_class ≡ idempotency_conflict))

  settle-Recognised :
      (r : Reading F) (t : TransformedDocument) (a b : Adapter F) (e : Document)
      → IsClear rt r t b
      → Recognised r t b (document_eq e (map_document t)) (settle rt r t a (some e))
        × ((settle rt r t a (some e)).1.document_storage ≡ a.document_storage)
  unfolding settle
  settle-Recognised r t a b e clear = elim (Bool-cases (document_eq e (map_document t))) [
    | inl y ↦ rw (settle, y) ((clear, refl, refl), refl)
    | inr n ↦ rw (settle, n) ((λ c. (refl, refl)), refl)
  ]

  clear_transfer :
      (r : Reading F) (t : TransformedDocument) (b : Adapter F)
      → IsClear rt r t b
      → transfer rt r t b ≡ store rt r t (limited rt r b)
  unfolding transfer admitted
  clear_transfer r t b c = elim (transfer_cases rt r t b) [
    | inl d ↦ d.1
    | inr x ↦ ground (arith, c.0, c.1)
  ]

  taken :
      (r : Reading F) (id : String) (t : TransformedDocument) (b : Adapter F) {e : Document}
      → storage_get t.source_identifier b.document_storage ≡ some e
      → let q = upload_archived_file rt r id (document t) b in
        Recognised r t b (document_eq e (map_document t)) q
        × (q.1.document_storage ≡ b.document_storage)
  unfolding upload_archived_file
  taken r id t b {e} s =
      let same = document_eq e (map_document t) in
      let stored : store rt r t (limited rt r b) ≡ settle rt r t (limited rt r b) (some e) =
        unfold store in unfold map_document in ap (settle rt r t (limited rt r b)) s in
      elim (transfer_cases rt r t b) [
        | inl (clear, p) ↦
            subst (λ q. Recognised r t b same q × (q.1.document_storage ≡ b.document_storage))
              (sym (p ∙ stored)) (settle-Recognised r t (limited rt r b) b e clear)
        | inr (x, p) ↦
            subst (λ q. Recognised r t b same q × (q.1.document_storage ≡ b.document_storage))
              (sym p)
              (
                λ clear.
                    subst (Recognised r t b same)
                      (sym stored ∙ sym (clear_transfer r t b clear) ∙ p)
                      (settle-Recognised r t (limited rt r b) b e clear).0 clear,
                refl,
              )
      ]

  -- A document that was accepted is sent again, after any uploads of any payloads. If no throttling
  -- and no injected failure refuses it, the answer is a replay; the stored documents are as before.
  pub upload-replay :
      (r r' : Reading F) (id id' : String) (t : TransformedDocument) (a : Adapter F)
      (calls : List (Reading F × String × Payload)) {u : UploadResult}
      → (upload_archived_file rt r id (document t) a).0 ≡ ok u
      → let b = after calls (upload_archived_file rt r id (document t) a).1 in
        let q = upload_archived_file rt r' id' (document t) b in
        Recognised r' t b true q × (q.1.document_storage ≡ b.document_storage)
  upload-replay r r' id id' t a calls accepted =
      let b = after calls (upload_archived_file rt r id (document t) a).1 in
      let q = upload_archived_file rt r' id' (document t) b in
      let (e, s, same) = (upload_accepted rt r id t a accepted).0.0 in
      let (known, kept) =
        taken r' id' t b (
          after_keeps calls (upload_archived_file rt r id (document t) a).1 t.source_identifier
            s) in
      (subst (λ z. Recognised r' t b z q) same known, kept)

  -- After a document was accepted as new, and after any further uploads of any payloads, a document
  -- with its source identifier is sent. If no throttling and no injected failure refuses it, the
  -- answer is a replay exactly if the two documents map to equal ones, and else a conflict; the
  -- stored documents are as before.
  pub upload_conflict :
      (r r' : Reading F) (id id' : String) (t t' : TransformedDocument) (a : Adapter F)
      (calls : List (Reading F × String × Payload)) {u : UploadResult}
      → (upload_archived_file rt r id (document t) a).0 ≡ ok u
      → u.idempotent_replay ≡ false
      → t'.source_identifier ≡ t.source_identifier
      → let b = after calls (upload_archived_file rt r id (document t) a).1 in
        let q = upload_archived_file rt r' id' (document t') b in
        Recognised r' t' b (document_eq (map_document t) (map_document t')) q
        × (q.1.document_storage ≡ b.document_storage)
  upload_conflict r r' id id' t t' a calls accepted new key =
      let b = after calls (upload_archived_file rt r id (document t) a).1 in
      taken r' id' t' b (
        ap (λ k. storage_get k b.document_storage) key
        ∙ after_keeps calls (upload_archived_file rt r id (document t) a).1 t.source_identifier
            (upload_new rt r id t a accepted new))
