-- ===== src/Upload/Outcomes.antt =====
-- What each processed document's result says of the mode in which it was processed.
use enterprise_vault_migrati.Prelude.{
  ◌≡◌, String, Bool, false, List, [], ◌∷◌, ◌&&◌, arith, All, ℕ, Bool-cases, inl, inr, Option-cases,
  length, ltb,
}
use enterprise_vault_migrati.Runtime.{Runtime}
use enterprise_vault_migrati.Dict
use enterprise_vault_migrati.Dict.{Dict}
use enterprise_vault_migrati.Dict.Laws.{get-All}
use enterprise_vault_migrati.Errors.{ok, err, Attempt, Returns, Returns-bind, Returns-intro}
use enterprise_vault_migrati.Contracts.Documents.{TransformedDocument, UploadResult}
use enterprise_vault_migrati.Context.{TargetPort}
use enterprise_vault_migrati.Upload.Emission.{build_item_result}
use enterprise_vault_migrati.Upload.Processing.{
  process_transformed_document, consed, outcome_of, process_all, run_schedule, collect,
  process_pooled, process_unique,
}

-- The result is marked as a dry run exactly in dry-run mode, and then it is no replay.
abbrev pub IsMade : Bool → UploadResult → Type 0
IsMade dry u = (u.dry_run ≡ dry) × ((u.dry_run && u.idempotent_replay) ≡ false)

module _ {F S : Type 0} (rt : Runtime F) (port : TargetPort F S) (perform dry : Bool) where
  processed_IsMade :
      (d : TransformedDocument) (s : S) (u : UploadResult)
      → (process_transformed_document rt port perform dry d s).0 ≡ ok u
      → IsMade dry u
  unfolding process_transformed_document build_item_result
  processed_IsMade d s u h = ground arith

  process-IsMade :
      (d : TransformedDocument) (s : S)
      → Returns (IsMade dry) (process_transformed_document rt port perform dry d s).0
  process-IsMade d s = Returns-intro (IsMade dry) _ (processed_IsMade d s)

  consed-IsMade :
      (one : Attempt F UploadResult) (s : S) (rest : Attempt F (List UploadResult) × S)
      → Returns (IsMade dry) one
      → Returns (All (IsMade dry)) rest.0
      → Returns (All (IsMade dry)) (consed rt port perform dry one s rest).0
  unfolding consed
  consed-IsMade (ok u) s rest h k =
      Returns-bind (All (IsMade dry)) (All (IsMade dry)) rest.0 (λ us. ok (u ∷ us)) k
        (λ us m. (h, m))
  consed-IsMade (err e) s rest h k = tt

  process_all-IsMade :
      (ds : List TransformedDocument) (s : S)
      → Returns (All (IsMade dry)) (process_all rt port perform dry ds s).0
  unfolding process_all
  process_all-IsMade [] s = tt
  process_all-IsMade (d ∷ ds) s =
      let (one, s') = process_transformed_document rt port perform dry d s in
      consed-IsMade one s' _ (process-IsMade d s) (process_all-IsMade ds s')

  -- The calls of the pool.
  AllOutcomes : Dict (Attempt F UploadResult) → Type 0
  AllOutcomes o = All (λ (e : String × Attempt F UploadResult). Returns (IsMade dry) e.1) o

  run_schedule-IsMade :
      (ds : List TransformedDocument) (s : S)
      → AllOutcomes (run_schedule rt port perform dry ds s).0
  unfolding run_schedule AllOutcomes
  run_schedule-IsMade [] s = tt
  run_schedule-IsMade (d ∷ ds) s =
      let (one, s') = process_transformed_document rt port perform dry d s in
      (process-IsMade d s, run_schedule-IsMade ds s')

  outcome_of-IsMade :
      (d : TransformedDocument) (o : Dict (Attempt F UploadResult))
      → AllOutcomes o
      → Returns (IsMade dry) (outcome_of rt port perform dry d o)
  unfolding outcome_of AllOutcomes
  outcome_of-IsMade d o h = elim (Option-cases (Dict.get d.source_identifier o)) [
    | inl missing ↦ rw (missing, Returns) tt
    | inr found ↦
        rw (found.1, Returns) (get-All (Returns (IsMade dry)) d.source_identifier o h found.1)
  ]

  collect-IsMade :
      (o : Dict (Attempt F UploadResult)) (ds : List TransformedDocument)
      → AllOutcomes o
      → Returns (All (IsMade dry)) (collect rt port perform dry o ds)
  unfolding collect
  collect-IsMade o [] h = tt
  collect-IsMade o (d ∷ ds) h =
      Returns-bind (IsMade dry) (All (IsMade dry)) (outcome_of rt port perform dry d o) _
        (outcome_of-IsMade d o h)
        (λ u m.
          Returns-bind (All (IsMade dry)) (All (IsMade dry)) (collect rt port perform dry o ds)
            (λ us. ok (u ∷ us)) (collect-IsMade o ds h) (λ us ms. (m, ms)))

  pub process_unique-IsMade :
      (workers : ℕ) (schedule ds : List TransformedDocument) (s : S)
      → Returns (All (IsMade dry)) (process_unique rt port perform dry workers schedule ds s).0
  unfolding process_unique process_pooled
  process_unique-IsMade workers schedule ds s =
      elim (Bool-cases (ltb 1 (length ds) && ltb 1 workers)) [
        | inl y ↦ rw y (collect-IsMade _ ds (run_schedule-IsMade schedule s))
        | inr n ↦ rw n (process_all-IsMade ds s)
      ]
