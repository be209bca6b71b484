-- ===== src/Verify/Totals.antt =====
-- The verification step always answers, and its counts add up.
use enterprise_vault_migrati.Prelude.{
  Some, ℕ, ◌+◌, ◌==◌, ◌≡◌, refl, String, Bool, Option, none, some, List, [], ◌∷◌, not, arith,
  length,
}
use enterprise_vault_migrati.Runtime.{Runtime}
use enterprise_vault_migrati.Errors.{ok}
use enterprise_vault_migrati.Contracts.{Metrics, Configuration, ExecutionReport, report_defaults}
use enterprise_vault_migrati.Contracts.Documents.{
  TransformedDocument, TransformationResult, UploadBatchResult, VerificationResult,
}
use enterprise_vault_migrati.Context.{StepContext, known_report}
use enterprise_vault_migrati.Verify.Outcome.{ids_where, check_documents-Sorts, is_intact}
use enterprise_vault_migrati.Verify.{
  checked_documents, is_dry_run, build_result, resolve_report, verification_of, finish_verify,
  verify_uploaded, verify,
}

length-ids_where :
    (p : TransformedDocument → Bool) (ds : List TransformedDocument)
    → length (ids_where p ds) + length (ids_where (λ d. not (p d)) ds) ≡ length ds
length-ids_where p [] = refl
length-ids_where p (d ∷ ds) = ground (arith, length-ids_where p ds)

module _ {F : Type 0} (rt : Runtime F) (fetch : String → Option TransformedDocument) where
  verification_counts :
      (c : StepContext F) (u : UploadBatchResult)
      → (verification_of rt fetch c u).verified_count + (verification_of rt fetch c u).failed_count
        ≡ length (checked_documents (is_dry_run c.execution_context.configuration u) u)
  unfolding verification_of build_result
  verification_counts c u =
      let ds = checked_documents (is_dry_run c.execution_context.configuration u) u in
      let s = check_documents-Sorts fetch ds in
      rw (s.verified, s.failed) (length-ids_where (λ d. is_intact d (fetch d.source_identifier)) ds)

  -- `c'` is what the step publishes for the upload `u`: the documents that are to be checked are all
  -- counted as verified or failed, and the report is completed exactly if none failed.
  pub record Published (c : StepContext F) (u : UploadBatchResult) (c' : StepContext F)
      : Type 0 where
    pub counts :
        Some
          (λ (v : VerificationResult).
            (v.verified_count + v.failed_count
              ≡ length (checked_documents (is_dry_run c.execution_context.configuration u) u))
            × Some
                (λ (r : ExecutionReport F). r.completed ≡ (v.failed_count == 0))
                c'.execution_report)
          c'.verification_result
    pub transformed_kept : c'.transformation_result ≡ c.transformation_result
    pub uploaded_kept : c'.upload_result ≡ c.upload_result

  resolve_report-completed :
      (known : Option (ExecutionReport F)) (m : Metrics F) (k : Configuration F) (from upto : ℕ)
      (b : Bool)
      → (resolve_report rt known m k from upto b).completed ≡ b
  unfolding resolve_report report_defaults
  resolve_report-completed none m k from upto b = refl
  resolve_report-completed (some r) m k from upto b = refl

  finish_verify-Published :
      (c : StepContext F) (u : UploadBatchResult)
      → Published c u (finish_verify rt c u (verification_of rt fetch c u))
  unfolding finish_verify
  finish_verify-Published c u = record {
    counts = (verification_counts c u, resolve_report-completed (known_report c) _ _ _ _ _);
    transformed_kept = refl;
    uploaded_kept = refl;
  }

  verify_uploaded_lem :
      (c : StepContext F) {x : Option TransformationResult} {y : Option UploadBatchResult}
      (t : TransformationResult) (u : UploadBatchResult)
      → x ≡ some t
      → y ≡ some u
      → verify_uploaded rt fetch c x y ≡ ok (finish_verify rt c u (verification_of rt fetch c u))
  unfolding verify_uploaded
  verify_uploaded_lem c t u p q = rw (p, q) refl

  -- With transformation and upload results the verification step returns a context; every document
  -- that it is to check is counted as verified or as failed, and its report is completed exactly if
  -- none failed.
  pub verify_answers :
      (c : StepContext F) (t : TransformationResult) (u : UploadBatchResult)
      → c.transformation_result ≡ some t
      → c.upload_result ≡ some u
      → (c' : StepContext F) × (verify rt fetch c ≡ ok c') × Published c u c'
  unfolding verify
  verify_answers c t u p q = (
    finish_verify rt c u (verification_of rt fetch c u),
    verify_uploaded_lem c t u p q,
    finish_verify-Published c u,
  )
