-- ===== src/Finalize/Verdict.antt =====
-- What the final status of a run says of its documents.
use mathlib.Core.Option
use enterprise_vault_migrati.Prelude.{
  AllDistinct, ℕ, ◌≡◌, refl, String, Bool, true, false, Option, none, some, List, [], ◌∷◌, ◌&&◌,
  ◌||◌, ◌↔◌, ◌≢◌, not, arith, if◌then◌else◌, str_eq_iff, str_eq_refl, str_eq-false, text_in, length,
  ltb, is_empty-true, subst, Bool-cases, inl, inr, ap, ◌∙◌, sym,
}
use enterprise_vault_migrati.Runtime.{Runtime}
use enterprise_vault_migrati.Contracts.{
  Metrics, report_defaults, ExecutionReport, ReconciliationResult,
}
use enterprise_vault_migrati.Contracts.Documents.{
  TransformedDocument, UploadBatchResult, VerificationResult,
}
use enterprise_vault_migrati.Context.{StepContext, known_report, known_metrics, completed_at}
use enterprise_vault_migrati.Upload.Unique.{identifiers}
use enterprise_vault_migrati.Reporting.Summary.{
  resolve_final_status, fresh_status, is_unreconciled, final_status_failed,
}
use enterprise_vault_migrati.Finalize.Counts.{from, documents_of}
use enterprise_vault_migrati.Finalize.Reconciliation.{
  collect_missing, lost_identifiers, resolve_missing_items, is_dry_run_mode, is_reconciled,
  reconciliation_counts, resolve_reconciliation,
}
use enterprise_vault_migrati.Finalize.Metrics.{resolve_metrics}
use enterprise_vault_migrati.Finalize.{
  concluded, resolve_report, has_failed_execution, finalize_migration,
}

collect_missing-text_in :
    (lost seen : List String) (ds : List TransformedDocument) (k : String)
    → text_in k (collect_missing lost seen ds)
      ≡ (not (text_in k seen) && text_in k lost && text_in k (identifiers ds))
unfolding collect_missing
collect_missing-text_in lost seen [] k = ground arith
collect_missing-text_in lost seen (d ∷ ds) k = ground (
  arith,
  str_eq_iff d.source_identifier k,
  collect_missing-text_in lost seen ds k,
  collect_missing-text_in lost (d.source_identifier ∷ seen) ds k,
)

collect_missing-AllDistinct :
    (lost seen : List String) (ds : List TransformedDocument)
    → AllDistinct (collect_missing lost seen ds)
unfolding collect_missing
collect_missing-AllDistinct lost seen [] = tt
collect_missing-AllDistinct lost seen (d ∷ ds) =
    elim (Bool-cases (text_in d.source_identifier seen)) [
      | inl old ↦ rw old (collect_missing-AllDistinct lost seen ds)
      | inr new ↦ elim (Bool-cases (text_in d.source_identifier lost)) [
        | inl gone ↦
            rw (new, gone)
              (
                ground (
                  arith,
                  str_eq_refl d.source_identifier,
                  collect_missing-text_in lost (d.source_identifier ∷ seen) ds d.source_identifier,
                ),
                collect_missing-AllDistinct lost (d.source_identifier ∷ seen) ds,
              )
        | inr held ↦ rw (new, held) (collect_missing-AllDistinct lost seen ds)
      ]
    ]

-- Outside a dry run the missing items are, each once, the identifiers of transformed documents that
-- verification did not find or the upload failed.
pub resolve_missing_items_lem :
    (ds : List TransformedDocument) (u : Option UploadBatchResult) (v : Option VerificationResult)
    (k : String)
    → AllDistinct (resolve_missing_items ds u v false)
      × (text_in k (resolve_missing_items ds u v false)
          ≡ (text_in k (lost_identifiers u v) && text_in k (identifiers ds)))
unfolding resolve_missing_items
resolve_missing_items_lem ds u v k =
    (collect_missing-AllDistinct _ [] ds, collect_missing-text_in (lost_identifiers u v) [] ds k)

failure_flags :
    (failed reconciled : Bool)
    → (not (not failed) || ltb 0 (if failed then 1 else 0) || not reconciled)
      ≡ (failed || not reconciled)
failure_flags true reconciled = refl
failure_flags false reconciled = refl

reconciled_counts :
    (r : ReconciliationResult)
    → is_reconciled r false ≡ true
    → (r.expected_items ≡ r.verified_items) × (r.checksum_mismatches ≡ []) × (r.missing_items ≡ [])
unfolding is_reconciled
reconciled_counts r h = (
  ground arith,
  is_empty-true r.checksum_mismatches (ground arith),
  is_empty-true r.missing_items (ground arith),
)

some_injective : {A : Type 0} {a b : A} → some a ≡ some b → a ≡ b
some_injective h = cc

module _ {F : Type 0} (rt : Runtime F) where
  -- Nothing that ran before finalization has set a final status.
  abbrev pub HasNoStatus : StepContext F → Type 0
  HasNoStatus c = Option.bind (known_report c) (λ r. r.final_status) ≡ none

  -- The final status in the report that finalization publishes.
  abbrev pub published_status : StepContext F → Option String
  published_status c = Option.bind (finalize_migration rt c).execution_report (λ r. r.final_status)

  fresh_status_failed :
      (r : ExecutionReport F)
      → (fresh_status r ≡ final_status_failed)
        ↔ ((not r.completed || ltb 0 r.failed_steps || is_unreconciled r.reconciliation) ≡ true)
  unfolding fresh_status
  fresh_status_failed r = (
    λ h. ground (
      arith,
      h,
      str_eq-false "completed" "failed" refl,
      str_eq-false "dry_run_completed" "failed" refl,
      str_eq-false "completed_with_warnings" "failed" refl,
    ),
    λ h. ground arith,
  )

  -- The report of finalization before its conclusion.
  drafted : StepContext F → ExecutionReport F
  drafted c =
      let started = c.execution_context.started_at in
      let finished = completed_at c.execution_context in
      let x = resolve_reconciliation c in
      resolve_report rt (known_report c) (resolve_metrics rt (known_metrics c) c x started finished)
        x c started finished (has_failed_execution c)

  published_lem : (c : StepContext F) → published_status c ≡ some (resolve_final_status (drafted c))
  unfolding finalize_migration concluded drafted Option.bind
  published_lem c = refl

  resolve_report-none :
      (known : Option (ExecutionReport F)) (m : Metrics F) (x : ReconciliationResult)
      (c : StepContext F) (started finished : ℕ) (failed : Bool)
      → Option.bind known (λ (r : ExecutionReport F). r.final_status) ≡ none
      → (resolve_report rt known m x c started finished failed).final_status ≡ none
  unfolding resolve_report report_defaults Option.bind
  resolve_report-none none m x c started finished failed h = refl
  resolve_report-none (some r) m x c started finished failed h = h

  resolve_final_status-fresh :
      (r : ExecutionReport F) → r.final_status ≡ none → resolve_final_status r ≡ fresh_status r
  unfolding resolve_final_status
  resolve_final_status-fresh r h = ground arith

  drafted_fresh :
      (c : StepContext F) → HasNoStatus c → published_status c ≡ some (fresh_status (drafted c))
  unfolding drafted
  drafted_fresh c h =
      published_lem c
      ∙ ap some (
          resolve_final_status-fresh (drafted c)
            (resolve_report-none (known_report c) _ _ c _ _ _ h))

  drafted_verdict :
      (c : StepContext F)
      → (not (drafted c).completed
          || ltb 0 (drafted c).failed_steps
          || is_unreconciled (drafted c).reconciliation)
        ≡ (has_failed_execution c || not (resolve_reconciliation c).is_reconciled)
  unfolding drafted resolve_report is_unreconciled
  drafted_verdict c =
      failure_flags (has_failed_execution c) (resolve_reconciliation c).is_reconciled

  -- Where no earlier report has a final status, finalization publishes the status failed exactly if the
  -- run has failed or is not reconciled.
  pub failed_verdict :
      (c : StepContext F)
      → HasNoStatus c
      → (published_status c ≡ some final_status_failed)
        ↔ ((has_failed_execution c || not (resolve_reconciliation c).is_reconciled) ≡ true)
  failed_verdict c h =
      let (there, back) = fresh_status_failed (drafted c) in
      (
        λ e. sym (drafted_verdict c) ∙ there (some_injective (sym (drafted_fresh c h) ∙ e)),
        λ e. drafted_fresh c h ∙ ap some (back (drafted_verdict c ∙ e)),
      )

  fresh_status_success :
      (r : ExecutionReport F)
      → fresh_status r ≢ final_status_failed
      → (not r.completed || ltb 0 r.failed_steps || is_unreconciled r.reconciliation) ≡ false
  fresh_status_success r h =
      elim (Bool-cases
        (not r.completed || ltb 0 r.failed_steps || is_unreconciled r.reconciliation)) [
          | inl y ↦ absurd (h ((fresh_status_failed r).1 y))
          | inr n ↦ n
        ]

  -- What a reconciled run that was no dry run holds.
  reconciled_run :
      (c : StepContext F)
      → is_dry_run_mode c.execution_context.configuration c.upload_result ≡ false
      → (resolve_reconciliation c).is_reconciled ≡ true
      → (length (documents_of c.transformation_result)
          ≡ from 0 (λ (v : VerificationResult). v.verified_count) c.verification_result)
        × (from [] (λ (v : VerificationResult). v.checksum_mismatches) c.verification_result ≡ [])
        × (resolve_missing_items
              (documents_of c.transformation_result)
              c.upload_result
              c.verification_result
              false
            ≡ [])
  unfolding resolve_reconciliation reconciliation_counts
  reconciled_run c wet h =
      let (n, m, k) =
        reconciled_counts (reconciliation_counts c)
          (subst (λ b. is_reconciled (reconciliation_counts c) b ≡ true) wet h) in
      (
        n,
        m,
        subst
            (λ b.
              resolve_missing_items (documents_of c.transformation_result) c.upload_result
                c.verification_result b
              ≡ [])
            wet k,
      )

  -- If finalization publishes a status other than failed, no earlier report has a final status and the
  -- run was no dry run, then as many documents were verified as were transformed, no checksum differed,
  -- and no transformed document was missing at verification or failed to upload.
  pub successful_verdict :
      (c : StepContext F) (k : String)
      → HasNoStatus c
      → published_status c ≢ some final_status_failed
      → is_dry_run_mode c.execution_context.configuration c.upload_result ≡ false
      → (length (documents_of c.transformation_result)
          ≡ from 0 (λ (v : VerificationResult). v.verified_count) c.verification_result)
        × (from [] (λ (v : VerificationResult). v.checksum_mismatches) c.verification_result ≡ [])
        × ((text_in k (lost_identifiers c.upload_result c.verification_result)
              && text_in k (identifiers (documents_of c.transformation_result)))
            ≡ false)
  successful_verdict c k fresh ok_ wet =
      let good =
        sym (drafted_verdict c)
        ∙ fresh_status_success (drafted c) (λ e. ok_ (drafted_fresh c fresh ∙ ap some e)) in
      let (n, m, none_missing) = reconciled_run c wet (ground (arith, good)) in
      (
        n,
        m,
        sym
              (resolve_missing_items_lem (documents_of c.transformation_result) c.upload_result
                c.verification_result k).1
            ∙ ap (text_in k) none_missing,
      )
