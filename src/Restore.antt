-- ===== src/Restore.antt =====
-- The controller of a `PostgresPhysicalRestore`: src/controllers/restore.rs and
-- src/controllers/restore/migration.rs. `RestoreApi` holds what the code reads of the cluster, of the
-- clock and of the operator's memory during one reconcile, and the functions of third-party crates and
-- of the manifest builders; the handlers of the children return the calls that they attempt.
pub mod Generations
pub mod Batch
pub mod Measured
pub mod Cache
pub mod Failure
pub mod Handlers
pub mod Readiness
pub mod Migrating
pub mod Reconcile
pub mod Lifecycle
pub mod Slot
pub mod Retry
pub mod Droppable
use Prim.Native.String
use postgres_restore_operato.Prelude.{ℕ, String, Bool, Option, List}
use postgres_restore_operato.Types.{
  Quantity, Timestamp, MigrationResult, PostgresPhysicalReplica, PostgresPhysicalRestore,
}
use postgres_restore_operato.Effects.{Result, Kind, Call}
use postgres_restore_operato.Jobs.{Job}
use postgres_restore_operato.Reindex.{Watches, Observation}

pub record RestoreApi : Type 0 where
  pub now : Timestamp
  pub accepts : Call → Bool
  pub find_replica : String → Result (Option PostgresPhysicalReplica)
  pub reread_restore : String → Result (Option PostgresPhysicalRestore)
  pub find_job : String → Result (Option Job)
  pub created_job : String → Job
  pub list_jobs : String → Result (List Job)
  pub find_pvc : String → Result (Option (Option Quantity))
  pub find_service : String → Result Bool
  pub ready_replicas : String → Option ℕ
  pub builds : Kind → String → Result (Unit {0})
  pub termination_message : String → String → Option String
  pub minted_run_id : String
  -- Sizes of src/controllers/restore/builders.rs, and the quantity parser.
  pub cache_pvc_size : Quantity → Quantity
  pub cache_size_needs_grow : Quantity → Quantity → Bool
  pub to_bytes : Quantity → Option ℕ
  pub deployment_ready_timeout_secs : ℕ
  -- The reindex watches, and what the restore's database says of its reindex.
  pub watches : Watches
  pub reindex_progress : Observation
  -- The restore's database: credentials, the application database, its schemas and its audit table.
  pub credentials : Result (Unit {0})
  pub database : Result String
  pub latest_batch_at : Result (Option String)
  pub connects : Result (Unit {0})
  pub existing_schemas : List String → Result (List String)
  pub read_result : Option String → Bool → Result MigrationResult

infixr 66 ◌⊕◌
abbrev pub ◌⊕◌ : String → String → String
◌⊕◌ = String.◌++◌

abbrev pub restore_job_name : String → String
restore_job_name name = name ⊕ "-restore"

abbrev pub version_detect_job_name : String → String
version_detect_job_name name = name ⊕ "-version-detect"

abbrev pub migration_job_name : String → String
migration_job_name name = name ⊕ "-migrate"

abbrev pub data_pvc_name : String → String
data_pvc_name name = name ⊕ "-data"

abbrev pub kopia_cache_pvc_name : String → String
kopia_cache_pvc_name replica_name = replica_name ⊕ "-kopia-cache"
