-- ===== src/Types.antt =====
-- The custom resources of src/types/restore.rs and src/types/replica.rs: what the controllers read of
-- them. An absent `status` reads as one with every field absent, as `and_then` makes of it. A time is
-- a count of nanoseconds, a quantity is its text.
use postgres_restore_operato.Prelude.{ℕ, ℤ, String, Bool, true, false, Option, List}
unfoldable pub use postgres_restore_operato.Labels.{Labels, label}

abbrev pub Quantity : Type 0
Quantity = String

abbrev pub Timestamp : Type 0
Timestamp = ℕ

pub data RestorePhase : Type 0 where
  pending restoring migrating ready switching active failed : RestorePhase

pub data ReplicaPhase : Type 0 where
  pending restoring ready failed : ReplicaPhase

pub data SchemaMigrationPhase : Type 0 where
  active complete partial timeout_skipped : SchemaMigrationPhase
  failed : String → SchemaMigrationPhase

pub data RedactionPhase : Type 0 where
  active complete partial : RedactionPhase
  failed : String → RedactionPhase

-- `SchemaMigrationPhase::is_settled`.
unfoldable pub is_settled : SchemaMigrationPhase → Bool
is_settled SchemaMigrationPhase.active = false
is_settled _ = true

-- `RedactionPhase::is_settled`.
unfoldable pub redaction_is_settled : RedactionPhase → Bool
redaction_is_settled RedactionPhase.active = false
redaction_is_settled _ = true

-- `RedactionPhase::is_done`.
unfoldable pub is_done : RedactionPhase → Bool
is_done RedactionPhase.complete = true
is_done RedactionPhase.partial = true
is_done _ = false

pub record MigrationTarget : Type 0 where
  pub version : String
  pub version_id : String

pub record MigrationTiming : Type 0 where
  pub name : String
  pub elapsed_seconds : ℤ

pub record MigrationResult : Type 0 where
  pub total_elapsed_seconds : ℤ
  pub failed_migration : Option String
  pub error : Option String
  pub data_bytes_before : ℤ
  pub data_bytes_after : ℤ
  pub timings : List MigrationTiming

pub record SchemaBuildResult : Type 0 where
  pub built : Bool
  pub error : Option String
  pub total_elapsed_seconds : ℕ
  pub schema_bytes : Option ℕ
  pub artifacts : List String

-- Spec and status of a `PostgresPhysicalRestore`.
pub record PostgresPhysicalRestore : Type 0 where
  pub name : String
  pub namespace : Option String
  pub deletion_timestamp : Option Timestamp
  pub replica : String
  pub snapshot : String
  pub snapshot_size : Quantity
  pub migrate_to : Option MigrationTarget
  pub builder_image : Option String
  pub rank : Option String
  pub phase : Option RestorePhase
  pub run_id : Option String
  pub postgres_version : Option String
  pub created_at : Option Timestamp
  pub restored_at : Option Timestamp
  pub migration_baseline : Option String
  pub migration_result : Option MigrationResult
  pub schema_build_result : Option SchemaBuildResult
  pub schema_build_attempts : Option ℕ

pub record CanopySource : Type 0 where
  pub group : String
  pub backup_type : String

pub record SnapshotFilter : Type 0 where
  pub tags : Option (List (String × String))
  pub host_pattern : Option String
  pub description_pattern : Option String
  pub path_pattern : Option String

pub record Condition : Type 0 where
  pub type_ : String
  pub status : String
  pub reason : String

pub record ExtraUserSpec : Type 0 where
  pub name : String
  pub schemas : List String

pub record RedactionSpec : Type 0 where
  pub manifest_url : String
  pub version : Option String
  pub version_query : Option String
  pub version_fallback_to_base : Bool

-- Spec and status of a `PostgresPhysicalReplica`. `kopia_secret_ref` holds the optional name of the
-- Secret; a `TimeSpan` is held in nanoseconds.
pub record PostgresPhysicalReplica : Type 0 where
  pub name : String
  pub namespace : Option String
  pub labels : Labels
  pub kopia_secret_ref : Option (Option String)
  pub canopy_source : Option CanopySource
  pub snapshot_filter : Option SnapshotFilter
  pub schedule : String
  pub minimum_ttl : Option ℕ
  pub switchover_grace_period : ℕ
  pub analytics_username : String
  pub extra_users : List ExtraUserSpec
  pub deployment_ready_timeout : Option ℕ
  pub ephemeral : Bool
  pub persistent_schemas : Option (List String)
  pub pre_migrate_drop_schemas : Option (List String)
  pub pre_migrate_sql : Option String
  pub read_only : Bool
  pub redaction : Option RedactionSpec
  pub current_restore : Option String
  pub previous_restore : Option String
  pub last_restore_completed_at : Option Timestamp
  pub next_scheduled_restore : Option Timestamp
  pub canopy_desired_snapshot_id : Option String
  pub verified_snapshot_id : Option String
  pub conditions : List Condition
  pub schedule_input_hash : Option String
  pub schema_migration_phase : Option SchemaMigrationPhase
  pub consecutive_restore_failures : Option ℕ
  pub redaction_phase : Option RedactionPhase
