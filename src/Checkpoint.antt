-- ===== src/Checkpoint.antt =====
-- src/migration_engine/checkpoint/checkpoint_snapshot.py, the in-memory repository of
-- src/adapters/database/in_memory_checkpoint_repository.py and the service of
-- src/application/services/checkpoint_service.py, which passes each call on to the repository.
pub mod Laws
use enterprise_vault_migrati.Prelude.{ℕ, String, Bool, Option, List, []}
use enterprise_vault_migrati.Dict
use enterprise_vault_migrati.Dict.{Dict}

-- CheckpointSnapshot
pub record CheckpointSnapshot (F : Type 0) : Type 0 where
  pub checkpoint_id : String
  pub migration_job_id : String
  pub last_completed_step : Option String
  pub last_processed_item_id : Option String
  pub processed_items : ℕ
  pub successful_items : ℕ
  pub failed_items : ℕ
  pub skipped_items : ℕ
  pub filtered_archives : ℕ
  pub filtered_items : ℕ
  pub uploaded_items : ℕ
  pub verification_failures : ℕ
  pub current_state : String
  pub created_at : ℕ
  pub updated_at : ℕ
  pub dry_run : Bool
  pub dry_run_items : ℕ
  pub archive_names : Option (List String)
  pub folder_paths : Option (List String)
  pub start_date : Option ℕ
  pub end_date : Option ℕ
  pub upload_worker_count : ℕ
  pub upload_requests_per_second : Option F
  pub throttled_uploads : ℕ
  pub retry_after_count : ℕ
  pub temporary_failures : ℕ
  pub worker_utilization : F
  pub version : ℕ

-- What CheckpointRepositoryPort promises of a repository with states `S`: a stored checkpoint is
-- found under its job until it is replaced or deleted, and no other job is affected.
pub record CheckpointRepositoryPort (F S : Type 0) : Type 0 where
  pub save_checkpoint : CheckpointSnapshot F → S → S
  pub load_checkpoint : String → S → Option (CheckpointSnapshot F)
  pub delete_checkpoint : String → S → S
  pub checkpoint_exists : String → S → Bool

module _ {F : Type 0} where
  -- InMemoryCheckpointRepository; its state is the dictionary `_checkpoints`.
  unfoldable pub save_checkpoint :
      CheckpointSnapshot F → Dict (CheckpointSnapshot F) → Dict (CheckpointSnapshot F)
  save_checkpoint c d = Dict.put c.migration_job_id c d

  unfoldable pub load_checkpoint :
      String → Dict (CheckpointSnapshot F) → Option (CheckpointSnapshot F)
  load_checkpoint job d = Dict.get job d

  unfoldable pub delete_checkpoint :
      String → Dict (CheckpointSnapshot F) → Dict (CheckpointSnapshot F)
  delete_checkpoint job d = Dict.remove job d

  unfoldable pub checkpoint_exists : String → Dict (CheckpointSnapshot F) → Bool
  checkpoint_exists job d = Dict.has job d

-- The adapter as an implementation of the port.
abbrev pub in_memory_repository :
    {F : Type 0} → CheckpointRepositoryPort F (Dict (CheckpointSnapshot F))
in_memory_repository = record {
  save_checkpoint = save_checkpoint;
  load_checkpoint = load_checkpoint;
  delete_checkpoint = delete_checkpoint;
  checkpoint_exists = checkpoint_exists;
}
