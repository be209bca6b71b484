-- ===== src/Transform/Publication.antt =====
-- What the transformation step publishes.
use mathlib.Core.Path.{subst}
use enterprise_vault_migrati.Prelude.{
  ◌+◌, ◌==◌, ◌≡◌, refl, sym, ap, Option, none, some, List, arith, length, Some, or_else,
}
use enterprise_vault_migrati.Runtime.{Runtime}
use enterprise_vault_migrati.Errors.{Returns, Returns-bind}
use enterprise_vault_migrati.Contracts.{Metrics, ExecutionReport}
use enterprise_vault_migrati.Contracts.Source.{SourceVaultStore}
use enterprise_vault_migrati.Contracts.Documents.{ExtractionResult, TransformationResult}
use enterprise_vault_migrati.Context.{StepContext, completed_at}
use enterprise_vault_migrati.Extract.{stores_to_extract}
use enterprise_vault_migrati.Extract.Loops.{select_vault_stores}
use enterprise_vault_migrati.Rehydration.{Rehydrator, new_rehydrator}
use enterprise_vault_migrati.Rehydration.Integrity.{CacheIntact}
use enterprise_vault_migrati.Transform.Loop.{Transformation, nothing_transformed, transform_items}
use enterprise_vault_migrati.Transform.Outcome.{
  Transforms, Done, transform_items-Done, length-Transforms,
}
use enterprise_vault_migrati.Transform.{
  transformation_result, resolve_metrics, resolve_report, finish_transform, discovered_names,
  transform_extracted, transform,
}

module _ {F : Type 0} (rt : Runtime F) where
  -- The published result has for each extracted item its document or its failure, in order; the
  -- report is completed exactly if none failed, the counts add up, and the cache is intact.
  pub record Published (stores : List SourceVaultStore) (x : ExtractionResult)
      (q : StepContext F × Rehydrator) : Type 0 where
    pub result :
        Some
          (λ (r : TransformationResult).
            Transforms rt stores x.extracted_mail_items r.transformed_documents
              r.failed_item_identifiers
            × (r.failed_items ≡ length r.failed_item_identifiers)
            × Some
                (λ (report : ExecutionReport F). report.completed ≡ (r.failed_items == 0))
                q.0.execution_report)
          q.0.transformation_result
    pub counts :
        Some
          (λ (m : Metrics F).
            (m.processed_items ≡ length x.extracted_mail_items)
            × (m.successful_items + m.failed_items ≡ m.processed_items))
          q.0.execution_context.metrics
    pub stores_kept : q.0.vault_stores ≡ some stores
    pub still_intact : CacheIntact rt q.1.cache

  finish_transform-Published :
      (c : StepContext F) (stores : List SourceVaultStore) (x : ExtractionResult) (r : Rehydrator)
      (t : Transformation)
      → Done rt stores x.extracted_mail_items (nothing_transformed r) t
      → Published stores x (finish_transform rt c stores t, t.rehydrator)
  unfolding finish_transform transformation_result resolve_report resolve_metrics
  finish_transform-Published c stores x r t h = record {
    result = (
      subst (λ fs. Transforms rt stores x.extracted_mail_items t.transformed_documents fs)
          (sym h.failures_added)
          (subst (λ ds. Transforms rt stores x.extracted_mail_items ds h.failures)
            (sym h.documents_added) h.transforms),
      omega (arith, h.failures_counted, ap length h.failures_added),
      refl,
    );
    counts = (
      omega (
        arith,
        h.failures_counted,
        ap length h.documents_added,
        length-Transforms rt stores h.transforms,
      ),
      omega arith,
    );
    stores_kept = refl;
    still_intact = h.still_intact;
  }

  transform_extracted-Published :
      (c : StepContext F) (stores : List SourceVaultStore) (r : Rehydrator)
      (o : Option ExtractionResult) (x : ExtractionResult)
      → o ≡ some x
      → CacheIntact rt r.cache
      → Returns (Published stores x) (transform_extracted rt stores r c o)
  unfolding transform_extracted
  transform_extracted-Published c stores r none x e i = absurd (cc e)
  transform_extracted-Published c stores r (some y) x e i =
      let q : y ≡ x = cc e in
      rw q (
        Returns-bind (Done rt stores x.extracted_mail_items (nothing_transformed r))
          (Published stores x)
          (transform_items rt stores c.execution_context.started_at
            (completed_at c.execution_context) x.extracted_mail_items (nothing_transformed r))
          _
          (transform_items-Done rt stores c.execution_context.started_at
            (completed_at c.execution_context) x.extracted_mail_items (nothing_transformed r) i)
          (λ t h. finish_transform-Published c stores x r t h))

  -- With an intact cache, what the transformation step returns has for each extracted item, in order,
  -- either its document, of a place in the selected stores that has an item of its identifier and only
  -- if all its parts are intact, or its identifier as failed; the report is completed exactly if none
  -- failed, the successful and the failed items add up to the extracted ones, and the cache is intact.
  pub transform-Published :
      (own generated : Option (List SourceVaultStore)) (own_rehydrator : Option Rehydrator)
      (c : StepContext F) (x : ExtractionResult)
      → c.extraction_result ≡ some x
      → CacheIntact rt (or_else own_rehydrator new_rehydrator).cache
      → Returns
          (Published
            (select_vault_stores
              (stores_to_extract c.vault_stores own generated)
              (discovered_names c.discovery_result))
            x)
          (transform rt own generated own_rehydrator c)
  unfolding transform
  transform-Published own generated own_rehydrator c x e i =
      transform_extracted-Published c
        (select_vault_stores (stores_to_extract c.vault_stores own generated)
          (discovered_names c.discovery_result))
        (or_else own_rehydrator new_rehydrator) c.extraction_result x e i
