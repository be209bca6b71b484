-- ===== src/Retry/Records.antt =====
-- What the in-memory retry repository keeps.
use enterprise_vault_migrati.Prelude.{
  ◌≡◌, String, some, List, [], ◌∷◌, ◌++◌, arith, str_eq, str_eq_iff, if◌then◌else◌, or_else,
}
use enterprise_vault_migrati.Errors.{ok}
use enterprise_vault_migrati.Dict
use enterprise_vault_migrati.Dict.{Dict}
use enterprise_vault_migrati.Dict.Laws.{get-put}
use enterprise_vault_migrati.Retry.{RetryRecord, save_record, list_for_job}

-- A saved record comes last in the list of its job, behind what was saved before, and the lists of
-- the other jobs stay.
pub list_for_job-save :
    (F : Type 0) (r : RetryRecord) (job other : String) (d : Dict (List RetryRecord))
    {e : Dict (List RetryRecord)}
    → r.migration_job_id ≡ some job
    → save_record {F = F} r d ≡ ok e
    → list_for_job other e
      ≡ (if str_eq job other then list_for_job other d ++ r ∷ [] else list_for_job other d)
unfolding save_record list_for_job
list_for_job-save F r job other d {e} j h =
    ground
      (arith, get-put job other (or_else (Dict.get job d) [] ++ r ∷ []) d, str_eq_iff job other)
