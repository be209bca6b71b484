-- ===== src/Upload/Processing.antt =====
-- upload_items_step.py: one document sent to the target, looked up there or left out in a dry run,
-- and the sequential and pooled processing of all documents.
use enterprise_vault_migrati.Prelude.{
  ℕ, Bool, true, false, Option, none, some, List, [], ◌∷◌, ◌&&◌, not, if◌then◌else◌, ltb, length,
  or_text,
}
use enterprise_vault_migrati.Runtime.{Runtime}
use enterprise_vault_migrati.Dict
use enterprise_vault_migrati.Dict.{Dict}
use enterprise_vault_migrati.Errors.{
  ok, err, ErrorClass, idempotency_conflict, other_error, Attempt, plain, ◌>>=◌,
}
use enterprise_vault_migrati.Contracts.Documents.{TransformedDocument, UploadResult}
use enterprise_vault_migrati.Context.{TargetPort}
use enterprise_vault_migrati.Upload.Emission.{build_item_result}

is_conflict : ErrorClass → Bool
is_conflict idempotency_conflict = true
is_conflict _ = false

module _ {F S : Type 0} (rt : Runtime F) (port : TargetPort F S) (perform dry_run_mode : Bool) where
  -- the answer of the target to an upload
  unfoldable pub answered :
      TransformedDocument → Attempt F (Option UploadResult) → Attempt F UploadResult
  unfolding is_conflict
  answered d (err e) =
      if is_conflict e.error_class
      then ok (record (build_item_result rt d false (some e.message)) { target_identifier = none })
      else err e
  answered d (ok none) = ok (build_item_result rt d true none)
  answered d (ok (some u)) =
      if not u.success
      then ok (record (build_item_result rt d false u.error_message) {
        target_identifier = u.target_identifier;
      })
      else ok (record (build_item_result rt d true none) {
        target_identifier = some (or_text u.target_identifier d.source_identifier);
        idempotent_replay = u.idempotent_replay;
      })

  -- what reconstruction finds in the target
  unfoldable pub reconstructed : TransformedDocument → Option TransformedDocument → UploadResult
  reconstructed d none =
      record (build_item_result rt d false (some "Uploaded document not found in target storage")) {
        target_identifier = none;
      }
  reconstructed d (some t) = build_item_result rt d true none

  -- _process_transformed_document
  unfoldable pub process_transformed_document : TransformedDocument → S → Attempt F UploadResult × S
  unfolding answered reconstructed
  process_transformed_document d s =
      if dry_run_mode
      then (
        ok (record (build_item_result rt d true none) { target_identifier = none; dry_run = true }),
        s,
      )
      else if perform
      then (let (answer, s') = port.upload_archived_file d.source_identifier d s in
          (answered d answer, s'))
      else (ok (reconstructed d (port.get_uploaded_document d.source_identifier s)), s)

  -- one outcome in front of what the later documents give; an exception ends the comprehension
  unfoldable pub consed :
      Attempt F UploadResult
      → S
      → Attempt F (List UploadResult) × S
      → Attempt F (List UploadResult) × S
  consed (err e) s rest = (err e, s)
  consed (ok u) s rest = ((rest.0 >>= λ us. ok (u ∷ us)), rest.1)

  -- the list comprehension of the sequential branch
  unfoldable pub process_all : List TransformedDocument → S → Attempt F (List UploadResult) × S
  unfolding consed
  process_all [] s = (ok [], s)
  process_all (d ∷ ds) s =
      let (one, s') = process_transformed_document d s in consed one s' (process_all ds s')

  -- the calls of the pool, each with its outcome
  unfoldable pub run_schedule : List TransformedDocument → S → Dict (Attempt F UploadResult) × S
  run_schedule [] s = ([], s)
  run_schedule (d ∷ ds) s =
      let (one, s') = process_transformed_document d s in
      let rest = run_schedule ds s' in ((d.source_identifier, one) ∷ rest.0, rest.1)

  unfoldable pub outcome_of :
      TransformedDocument → Dict (Attempt F UploadResult) → Attempt F UploadResult
  outcome_of d outcomes = elim (Dict.get d.source_identifier outcomes) [
    | none ↦ err (plain other_error d.source_identifier)
    | some one ↦ one
  ]

  -- `list(executor.map(…))`: the outcomes in the order of the documents, or the first exception
  unfoldable pub collect :
      Dict (Attempt F UploadResult) → List TransformedDocument → Attempt F (List UploadResult)
  unfolding outcome_of
  collect outcomes [] = ok []
  collect outcomes (d ∷ ds) =
      let rest = collect outcomes ds in outcome_of d outcomes >>= λ u. rest >>= λ us. ok (u ∷ us)

  unfoldable pub process_pooled :
      List TransformedDocument → List TransformedDocument → S → Attempt F (List UploadResult) × S
  unfolding run_schedule collect
  process_pooled schedule ds s =
      let (outcomes, s') = run_schedule schedule s in (collect outcomes ds, s')

  -- the unique documents are processed one after the other, or by the pool where there are several
  -- documents and several workers
  unfoldable pub process_unique :
      ℕ
      → List TransformedDocument
      → List TransformedDocument
      → S
      → Attempt F (List UploadResult) × S
  unfolding process_all process_pooled
  process_unique worker_count schedule ds s =
      if ltb 1 (length ds) && ltb 1 worker_count
      then process_pooled schedule ds s
      else process_all ds s
