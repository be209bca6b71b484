-- ===== src/Reporting/Reasons.antt =====
-- The codes of the verification entries of the error breakdown.
use enterprise_vault_migrati.Prelude.{
  ℕ, ◌≡◌, refl, String, Bool, true, Option, none, some, List, [], ◌∷◌, arith, All, Option-cases,
  Bool-cases, inl, inr, text_in, str_eq, str_eq_iff, str_eq_refl, map, not, is_some,
}
use enterprise_vault_migrati.Dict
use enterprise_vault_migrati.Dict.{Dict}
use enterprise_vault_migrati.Dict.Laws.{get-put, get-All}
use enterprise_vault_migrati.Contracts.{ErrorBreakdownEntry}
use enterprise_vault_migrati.Contracts.Documents.{TransformedDocument, VerificationResult}
use enterprise_vault_migrati.Verify.{check_documents, build_result}
use enterprise_vault_migrati.Verify.Outcome.{
  check_documents-Sorts, ids_where, is_intact, is_missing, is_corrupt, is_altered,
}
use enterprise_vault_migrati.Reporting.Breakdown.{
  Reason, failed, missing, checksum, metadata, Reasons, recorded, add_reason, record_reason,
  record_all, failure_reasons, resolve_verification_failure, verification_entry, entry,
}

-- All recorded reasons have `failed`.
abbrev AllFailed : Dict Reasons → Type 0
AllFailed d = All (λ (e : String × Reasons). e.1.has_failed ≡ true) d

abbrev Recorded : String → Dict Reasons → Type 0
Recorded k d = is_some (Dict.get k d) ≡ true

put-AllFailed :
    (k : String) (r : Reasons) (d : Dict Reasons)
    → r.has_failed ≡ true
    → AllFailed d
    → AllFailed (Dict.put k r d)
unfolding Dict.put
put-AllFailed k r [] h a = ground arith
put-AllFailed k r (e ∷ d) h a = ground (arith, put-AllFailed k r d)

add_reason_failed :
    (reason : Reason) (r : Reasons) → r.has_failed ≡ true → (add_reason reason r).has_failed ≡ true
unfolding add_reason
add_reason_failed reason r h = ground arith

record_reason-Recorded :
    (k j : String) (reason : Reason) (d : Dict Reasons)
    → Recorded j d
    → Recorded j (record_reason k reason d)
unfolding record_reason
record_reason-Recorded k j reason d h = rw get-put (ground arith)

record_reason_itself :
    (k : String) (reason : Reason) (d : Dict Reasons) → Recorded k (record_reason k reason d)
unfolding record_reason
record_reason_itself k reason d = rw (get-put, str_eq_refl) refl

record_failed-AllFailed :
    (k : String) (d : Dict Reasons) → AllFailed d → AllFailed (record_reason k failed d)
unfolding record_reason add_reason
record_failed-AllFailed k d a = put-AllFailed k _ d refl a

record_known-AllFailed :
    (k : String) (reason : Reason) (d : Dict Reasons)
    → Recorded k d
    → AllFailed d
    → AllFailed (record_reason k reason d)
unfolding record_reason recorded
record_known-AllFailed k reason d h a = elim (Option-cases (Dict.get k d)) [
  | inl gone ↦ absurd (ground arith)
  | inr found ↦
      put-AllFailed k _ d
        (rw found.1 (
          add_reason_failed reason found.0
            (get-All (λ (r : Reasons). r.has_failed ≡ true) k d a found.1)))
        a
]

record_all-Recorded :
    (reason : Reason) (ks : List String) (d : Dict Reasons) (j : String)
    → Recorded j d
    → Recorded j (record_all reason ks d)
unfolding record_all
record_all-Recorded reason [] d j h = h
record_all-Recorded reason (k ∷ ks) d j h =
    record_all-Recorded reason ks (record_reason k reason d) j
      (record_reason-Recorded k j reason d h)

record_all_each :
    (reason : Reason) (ks : List String) (d : Dict Reasons) (j : String)
    → text_in j ks ≡ true
    → Recorded j (record_all reason ks d)
unfolding record_all
record_all_each reason [] d j h = absurd (ground arith)
record_all_each reason (k ∷ ks) d j h = elim (Bool-cases (str_eq k j)) [
  | inl same ↦
      record_all-Recorded reason ks (record_reason k reason d) j
        (rw ((str_eq_iff k j).0 same) (record_reason_itself j reason d))
  | inr other ↦ record_all_each reason ks (record_reason k reason d) j (ground arith)
]

-- The first loop.
record_all_failed :
    (ks : List String) (d : Dict Reasons) → AllFailed d → AllFailed (record_all failed ks d)
unfolding record_all
record_all_failed [] d a = a
record_all_failed (k ∷ ks) d a =
    record_all_failed ks (record_reason k failed d) (record_failed-AllFailed k d a)

-- The later loops over identifiers that are recorded.
record_all_known :
    (reason : Reason) (ks : List String) (d : Dict Reasons)
    → ((j : String) → text_in j ks ≡ true → Recorded j d)
    → AllFailed d
    → AllFailed (record_all reason ks d)
unfolding record_all
record_all_known reason [] d h a = a
record_all_known reason (k ∷ ks) d h a =
    record_all_known reason ks (record_reason k reason d)
      (λ j m. record_reason-Recorded k j reason d (h j (later j m)))
      (record_known-AllFailed k reason d (h k first) a)
  where
    first : text_in k (k ∷ ks) ≡ true
    first = rw (str_eq_refl k) refl

    later : (j : String) → text_in j ks ≡ true → text_in j (k ∷ ks) ≡ true
    later j m = ground (arith, m)

failure_reasons-AllFailed :
    (v : VerificationResult)
    → ((j : String)
        → text_in j v.missing_document_ids ≡ true
        → text_in j v.failed_document_ids ≡ true)
    → ((j : String)
        → text_in j v.checksum_mismatches ≡ true
        → text_in j v.failed_document_ids ≡ true)
    → ((j : String)
        → text_in j v.metadata_mismatches ≡ true
        → text_in j v.failed_document_ids ≡ true)
    → AllFailed (failure_reasons v)
unfolding failure_reasons
failure_reasons-AllFailed v m s x =
    let d1 = record_all failed v.failed_document_ids [] in
    let d2 = record_all missing v.missing_document_ids d1 in
    let d3 = record_all checksum v.checksum_mismatches d2 in
    let known1 = λ (j : String) (h : text_in j v.failed_document_ids ≡ true).
      record_all_each failed v.failed_document_ids [] j h in
    let a1 = record_all_failed v.failed_document_ids [] tt in
    let a2 = record_all_known missing v.missing_document_ids d1 (λ j h. known1 j (m j h)) a1 in
    let a3 =
      record_all_known checksum v.checksum_mismatches d2
        (λ j h. record_all-Recorded missing v.missing_document_ids d1 j (known1 j (s j h))) a2 in
    record_all_known metadata v.metadata_mismatches d3
      (λ j h.
        record_all-Recorded checksum v.checksum_mismatches d2 j
          (record_all-Recorded missing v.missing_document_ids d1 j (known1 j (x j h))))
      a3

failed_code :
    (r : Reasons) → r.has_failed ≡ true → (resolve_verification_failure r).0 ≡ "verification_failed"
unfolding resolve_verification_failure
failed_code r h = ground arith

entries_codes :
    (documents : Dict TransformedDocument) (status : String) (d : Dict Reasons)
    → AllFailed d
    → All
        (λ (e : ErrorBreakdownEntry). e.code ≡ "verification_failed")
        (map (verification_entry documents status) d)
unfolding verification_entry entry
entries_codes documents status [] a = tt
entries_codes documents status (e ∷ d) a =
    (failed_code e.1 a.0, entries_codes documents status d a.1)

ids_where_within :
    (p q : TransformedDocument → Bool) (ds : List TransformedDocument) (k : String)
    → ((d : TransformedDocument) → p d ≡ true → q d ≡ true)
    → text_in k (ids_where p ds) ≡ true
    → text_in k (ids_where q ds) ≡ true
ids_where_within p q [] k h m = m
ids_where_within p q (d ∷ ds) k h m = ground (arith, h d, ids_where_within p q ds k h)

module _ (fetch : String → Option TransformedDocument) (ds : List TransformedDocument) where
  not_intact :
      (d : TransformedDocument) (o : Option TransformedDocument)
      → (is_missing o ≡ true → not (is_intact d o) ≡ true)
        × (is_corrupt d o ≡ true → not (is_intact d o) ≡ true)
        × (is_altered d o ≡ true → not (is_intact d o) ≡ true)
  not_intact d none = (λ h. refl, λ h. refl, λ h. refl)
  not_intact d (some t) = (λ h. ground arith, λ h. ground arith, λ h. ground arith)

  -- Each verification entry that the error breakdown has for the verification step, of whatever the
  -- target holds, has the code verification_failed: the codes missing_document, checksum_mismatch and
  -- metadata_mismatch are given to none.
  pub verification_codes :
      (from upto : ℕ) (documents : Dict TransformedDocument) (status : String)
      → All
          (λ (e : ErrorBreakdownEntry). e.code ≡ "verification_failed")
          (map
            (verification_entry documents status)
            (failure_reasons (build_result (check_documents fetch ds) from upto)))
  unfolding build_result
  verification_codes from upto documents status =
      let s = check_documents-Sorts fetch ds in
      entries_codes documents status _ (
        failure_reasons-AllFailed (build_result (check_documents fetch ds) from upto)
          (λ j.
            rw (s.missing, s.failed)
              (ids_where_within _ _ ds j (λ d. (not_intact d (fetch d.source_identifier)).0)))
          (λ j.
            rw (s.corrupt, s.failed)
              (ids_where_within _ _ ds j (λ d. (not_intact d (fetch d.source_identifier)).1)))
          (λ j.
            rw (s.altered, s.failed)
              (ids_where_within _ _ ds j (λ d. (not_intact d (fetch d.source_identifier)).2))))
