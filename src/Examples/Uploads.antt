-- ===== src/Examples/Uploads.antt =====
-- The upload step at concrete inputs: three documents, two of them with one source identifier.
use enterprise_vault_migrati.Prelude.{◌≡◌, refl, true, false, [], ◌∷◌, ◌⊎◌}
use enterprise_vault_migrati.Errors.{Returns}
use enterprise_vault_migrati.Upload.{run_batch, run_upload, upload}
use enterprise_vault_migrati.Upload.Partition.{Accounts, run_batch-Accounts}
use enterprise_vault_migrati.Upload.Totals.{Reported, upload_adds_up}
use enterprise_vault_migrati.Upload.DryRun.{dry_run_keeps_target}
use enterprise_vault_migrati.Examples.Data.{
  nat_runtime, document_a, document_b, transformed, context, counting_port,
}

run_batch-Accounts_example :
    Returns
      (Accounts false (λ d. true) transformed.transformed_documents)
      (run_batch nat_runtime counting_port true false 2
        (document_b ∷ document_a ∷ [])
        transformed.transformed_documents
        0).0
run_batch-Accounts_example =
    run_batch-Accounts nat_runtime counting_port true false (λ d. true) 2
      (document_b ∷ document_a ∷ []) transformed.transformed_documents 0

upload_adds_up_example :
    Returns
      (Reported nat_runtime counting_port false transformed.transformed_documents)
      (run_upload nat_runtime counting_port true (document_b ∷ document_a ∷ []) (context false) 0).0
upload_adds_up_example =
    upload_adds_up nat_runtime counting_port true (document_b ∷ document_a ∷ []) (context false) 0
      transformed refl

dry_run_keeps_target_example :
    ((upload nat_runtime counting_port [] (context true) 0).1 ≡ 0)
    ⊎ ((upload nat_runtime counting_port [] (context true) 0).1
        ≡ counting_port.finalize_job "job" 0)
dry_run_keeps_target_example =
    dry_run_keeps_target nat_runtime counting_port [] (context true) 0 refl
