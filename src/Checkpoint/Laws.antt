-- ===== src/Checkpoint/Laws.antt =====
-- The contract of a checkpoint repository, and that the in-memory one keeps it.
use enterprise_vault_migrati.Prelude.{String, none, some, ◌≡◌, str_eq, if◌then◌else◌, is_some}
use enterprise_vault_migrati.Dict.Laws.{get-put, get-remove, has-eq-is_some}
use enterprise_vault_migrati.Checkpoint.{
  CheckpointSnapshot, CheckpointRepositoryPort, save_checkpoint, load_checkpoint, delete_checkpoint,
  checkpoint_exists, in_memory_repository,
}

-- The abstract view is a function from jobs to checkpoints: a save updates it at the job of the
-- snapshot, a delete forgets one job, and existence is having a checkpoint.
pub record IsRepository {F S : Type 0} (port : CheckpointRepositoryPort F S) : Type 0 where
  pub load-save :
      (c : CheckpointSnapshot F) (job : String) (s : S)
      → port.load_checkpoint job (port.save_checkpoint c s)
        ≡ (if str_eq c.migration_job_id job then some c else port.load_checkpoint job s)
  pub load-delete :
      (deleted job : String) (s : S)
      → port.load_checkpoint job (port.delete_checkpoint deleted s)
        ≡ (if str_eq deleted job then none else port.load_checkpoint job s)
  pub exists-load :
      (job : String) (s : S) → port.checkpoint_exists job s ≡ is_some (port.load_checkpoint job s)

pub in_memory-IsRepository : (F : Type 0) → IsRepository (in_memory_repository {F = F})
unfolding save_checkpoint load_checkpoint delete_checkpoint checkpoint_exists
in_memory-IsRepository F = record {
  load-save = λ c job d. get-put c.migration_job_id job c d;
  load-delete = λ deleted job d. get-remove deleted job d;
  exists-load = λ job d. has-eq-is_some job d;
}
