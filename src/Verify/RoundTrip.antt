-- ===== src/Verify/RoundTrip.antt =====
-- Upload, then verify, over the target adapter.
use enterprise_vault_migrati.Prelude.{
  AllDistinct, subst, sym, ℕ, ◌≡◌, refl, String, true, false, Option, some, List, [], ◌∷◌, arith,
  All, str_eq, str_eq_refl, list_eq_refl, option_eq_refl, text_pair_eq, text_pair_eq_refl, ==_refl,
  text_in, ap, ◌==◌,
}
use enterprise_vault_migrati.Runtime.{Runtime}
use enterprise_vault_migrati.Errors.{ok, err, Attempt, ◌>>=◌}
use enterprise_vault_migrati.Contracts.Documents.{TransformedDocument, UploadResult}
use enterprise_vault_migrati.Target.Adapter.{Adapter, Reading, get_uploaded_document}
use enterprise_vault_migrati.Target.Adapter.Replays.{upload_accepted}
use enterprise_vault_migrati.Target.Adapter.ReadBack.{adapter_port, read_back_kept}
use enterprise_vault_migrati.Upload.Emission.{build_item_result}
use enterprise_vault_migrati.Upload.Processing.{
  process_transformed_document, answered, process_all, consed,
}
use enterprise_vault_migrati.Upload.Unique.{identifiers}
use enterprise_vault_migrati.Verify.{same_signature, check_documents, check_one}

same_signature_refl : (d : TransformedDocument) → same_signature d d ≡ true
unfolding same_signature
same_signature_refl d = simp (
  str_eq_refl,
  ==_refl,
  option_eq_refl str_eq str_eq_refl,
  list_eq_refl str_eq str_eq_refl,
  list_eq_refl text_pair_eq text_pair_eq_refl,
  list_eq_refl (λ m n. m == n) ==_refl,
)

-- What the target gives back unchanged is verified.
given_back_verified :
    (fetch : String → Option TransformedDocument) (ds : List TransformedDocument)
    → All (λ (d : TransformedDocument). fetch d.source_identifier ≡ some d) ds
    → ((check_documents fetch ds).verified_document_ids ≡ identifiers ds)
      × ((check_documents fetch ds).failed_document_ids ≡ [])
unfolding check_documents check_one
given_back_verified fetch [] h = (refl, refl)
given_back_verified fetch (d ∷ ds) h =
    let (v, f) = given_back_verified fetch ds h.1 in
    rw (h.0, str_eq_refl d.checksum, same_signature_refl d)
      (ap (λ ks. d.source_identifier ∷ ks) v, f)

module _ {F : Type 0} (rt : Runtime F) (read : ℕ → Reading F) where
  abbrev Step : TransformedDocument → ℕ × Adapter F → Attempt F UploadResult × (ℕ × Adapter F)
  Step = process_transformed_document rt (adapter_port rt read) true false

  abbrev Steps :
      List TransformedDocument → ℕ × Adapter F → Attempt F (List UploadResult) × (ℕ × Adapter F)
  Steps = process_all rt (adapter_port rt read) true false

  step_kept :
      (d : TransformedDocument) (s : ℕ × Adapter F) (k : String) {x : TransformedDocument}
      → str_eq d.source_identifier k ≡ false
      → get_uploaded_document k s.1 ≡ some x
      → get_uploaded_document k (Step d s).1.1 ≡ some x
  unfolding process_transformed_document adapter_port
  step_kept d s k other h = read_back_kept rt (read s.0) d.source_identifier d s.1 k other h

  consed_kept :
      (one : Attempt F UploadResult) (s : ℕ × Adapter F)
      (rest : Attempt F (List UploadResult) × (ℕ × Adapter F)) (k : String)
      {x : TransformedDocument}
      → get_uploaded_document k s.1 ≡ some x
      → get_uploaded_document k rest.1.1 ≡ some x
      → get_uploaded_document k (consed rt (adapter_port rt read) true false one s rest).1.1
        ≡ some x
  unfolding consed
  consed_kept (ok u) s rest k h later = later
  consed_kept (err e) s rest k h later = h

  steps_kept :
      (ds : List TransformedDocument) (s : ℕ × Adapter F) (k : String) {x : TransformedDocument}
      → text_in k (identifiers ds) ≡ false
      → get_uploaded_document k s.1 ≡ some x
      → get_uploaded_document k (Steps ds s).1.1 ≡ some x
  unfolding process_all
  steps_kept [] s k new h = h
  steps_kept (d ∷ ds) s k new h =
      let here = step_kept d s k (ground (arith, new)) h in
      consed_kept (Step d s).0 (Step d s).1 (Steps ds (Step d s).1) k here
        (steps_kept ds (Step d s).1 k (ground (arith, new)) here)

  answered_success :
      (d : TransformedDocument) (o : Attempt F UploadResult) {u : UploadResult}
      → answered rt (adapter_port rt read) true false d (o >>= λ v. ok (some v)) ≡ ok u
      → u.success ≡ true
      → (v : UploadResult) × (o ≡ ok v)
  unfolding answered build_item_result
  answered_success d (ok v) h s = (v, refl)
  answered_success d (err e) h s = absurd (ground arith)

  step_given_back :
      (d : TransformedDocument) (s : ℕ × Adapter F) {u : UploadResult}
      → (Step d s).0 ≡ ok u
      → u.success ≡ true
      → get_uploaded_document d.source_identifier (Step d s).1.1 ≡ some d
  unfolding process_transformed_document adapter_port
  step_given_back d s h ok_ =
      let (v, accepted) = answered_success d _ h ok_ in
      (upload_accepted rt (read s.0) d.source_identifier d s.1 accepted).0.1

  rest_ok :
      (u : UploadResult) (rest : Attempt F (List UploadResult)) {us : List UploadResult}
      → (rest >>= λ vs. ok (u ∷ vs)) ≡ ok us
      → (vs : List UploadResult) × (rest ≡ ok vs) × (us ≡ u ∷ vs)
  rest_ok u (ok vs) h = (vs, refl, ground arith)
  rest_ok u (err e) h = absurd (ground arith)

  consed_ok :
      (one : Attempt F UploadResult) (s : ℕ × Adapter F)
      (rest : Attempt F (List UploadResult) × (ℕ × Adapter F)) {us : List UploadResult}
      → let c = consed rt (adapter_port rt read) true false one s rest in
        c.0 ≡ ok us
        → (u : UploadResult) × (vs : List UploadResult) × (one ≡ ok u)
          × (rest.0 ≡ ok vs)
          × (us ≡ u ∷ vs)
          × (c.1 ≡ rest.1)
  unfolding consed
  consed_ok (ok u) s rest h = let (vs, p, q) = rest_ok u rest.0 h in (u, vs, refl, p, q, refl)
  consed_ok (err e) s rest h = absurd (ground arith)

  steps_given_back :
      (ds : List TransformedDocument) (s : ℕ × Adapter F) {us : List UploadResult}
      → AllDistinct (identifiers ds)
      → (Steps ds s).0 ≡ ok us
      → All (λ (u : UploadResult). u.success ≡ true) us
      → All
          (λ (d : TransformedDocument).
            get_uploaded_document d.source_identifier (Steps ds s).1.1 ≡ some d)
          ds
  unfolding process_all
  steps_given_back [] s distinct h all = tt
  steps_given_back (d ∷ ds) s distinct h all =
      let s' = (Step d s).1 in
      let (u, vs, p, q, e, m) = consed_ok (Step d s).0 s' (Steps ds s') h in
      let each = subst (All (λ (v : UploadResult). v.success ≡ true)) e all in
      subst
        (λ (z : ℕ × Adapter F).
          All (λ (x : TransformedDocument). get_uploaded_document x.source_identifier z.1 ≡ some x)
            (d ∷ ds))
        (sym m)
        (
          steps_kept ds s' d.source_identifier distinct.0 (step_given_back d s p each.0),
          steps_given_back ds s' distinct.1 q each.1,
        )

  -- Documents with distinct source identifiers that are uploaded one after the other, each with
  -- success, by an adapter in any state, are all verified and none fails.
  pub uploaded_verifies :
      (ds : List TransformedDocument) (s : ℕ × Adapter F) {us : List UploadResult}
      → AllDistinct (identifiers ds)
      → (process_all rt (adapter_port rt read) true false ds s).0 ≡ ok us
      → All (λ (u : UploadResult). u.success ≡ true) us
      → let target = (process_all rt (adapter_port rt read) true false ds s).1.1 in
        let checks = check_documents (λ k. get_uploaded_document k target) ds in
        (checks.verified_document_ids ≡ identifiers ds) × (checks.failed_document_ids ≡ [])
  uploaded_verifies ds s distinct h all =
      given_back_verified (λ k. get_uploaded_document k (Steps ds s).1.1) ds
        (steps_given_back ds s distinct h all)
