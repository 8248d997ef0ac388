-- ===== src/Replica/Migration.antt =====
-- The schema migration of a switchover: `ensure_credential_reset`, `timeout_schema_migration` and
-- `reconcile_schema_migration` of src/controllers/replica.rs, with the Job name of
-- src/controllers/replica/schema_migration.rs.

use Prim.Native.String
use postgres_restore_operato.Prelude.{
  ℕ, ◌-◌, String, Bool, true, false, not, ◌||◌, Option, none, some, List, [], ◌∷◌, any, ◌==◌, ltb,
  unwrap_or, is_empty, starts_with, text_contains,
}
use postgres_restore_operato.Types.{
  SchemaMigrationPhase, PostgresPhysicalReplica, PostgresPhysicalRestore, Timestamp,
}
use postgres_restore_operato.Scheduling.{schema_migration_timeout}
use postgres_restore_operato.Effects.{
  Error, PostgresError, err, Kind, Call, ReplicaField, M, ◌>>=◌, ◌>>◌, pure, answer, try, attempt,
  note, when, branch, cases, catch,
}
use postgres_restore_operato.Jobs.{Job, JobStatus, classify_job}
use postgres_restore_operato.Replica.{ReplicaApi, patch, is_text}

abbrev auth_code : PostgresError → Option String → Bool
auth_code e none =
    text_contains e.lowercase "password authentication failed"
    || text_contains e.lowercase "no password assigned"
auth_code e (some code) = code == "28P01" || code == "28000"

unfoldable pub is_auth_error : Error → Bool
is_auth_error (Error.postgres e) = auth_code e e.code
is_auth_error _ = false

abbrev pub credential_reset_job_name : String → String
credential_reset_job_name restore_name = String.◌++◌ restore_name "-cred-reset"

abbrev pub migration_job_name : String → String
migration_job_name replica_name = String.◌++◌ replica_name "-schema-migration"

abbrev is_running : Option String → Bool
is_running phase = is_text phase "Running" || is_text phase "Pending"

unfoldable pub migration_exceeded_budget : Option ℕ → Timestamp → Job → Bool
migration_exceeded_budget cron_interval now job = elim job.creation_timestamp [
  | none ↦ false
  | some created ↦ ltb (schema_migration_timeout cron_interval) (now - created)
]

abbrev pub is_complete : Option SchemaMigrationPhase → Bool
is_complete (some SchemaMigrationPhase.complete) = true
is_complete _ = false

-- The phase that a migration Job which succeeded leaves, by what it posted.
unfoldable pub succeeded_phase : Option String → SchemaMigrationPhase
succeeded_phase none = SchemaMigrationPhase.complete
succeeded_phase (some body) = elim (starts_with body "partial") [
  | true ↦ SchemaMigrationPhase.partial
  | false ↦ SchemaMigrationPhase.complete
]

abbrev is_partial : SchemaMigrationPhase → Bool
is_partial SchemaMigrationPhase.partial = true
is_partial _ = false

module _ (api : ReplicaApi) where
  unfoldable pub create_reset_job : String → M Bool
  create_reset_job restore_name = do
    phases ← answer (api.pod_phases restore_name)
    branch (any is_running phases) (pure false) do
      answer (api.builds Kind.reset_job (credential_reset_job_name restore_name))
      try api.accepts (Call.create Kind.reset_job (credential_reset_job_name restore_name))
      pure false

  unfoldable pub settle_reset : JobStatus → String → M Bool
  settle_reset JobStatus.active restore_name = pure false
  settle_reset JobStatus.succeeded restore_name = do
    attempt api.accepts (Call.scale restore_name 1)
    attempt api.accepts (Call.delete Kind.reset_job (credential_reset_job_name restore_name))
    pure true
  settle_reset JobStatus.failed restore_name = do
    attempt api.accepts (Call.delete Kind.reset_job (credential_reset_job_name restore_name))
    attempt api.accepts (Call.scale restore_name 1)
    pure false

  unfoldable pub ensure_credential_reset : String → M Bool
  ensure_credential_reset restore_name = do
    found ← answer (api.find_job (credential_reset_job_name restore_name))
    cases found (try api.accepts (Call.scale restore_name 0) >> create_reset_job restore_name)
        λ job. settle_reset (classify_job job) restore_name

  -- The patch that ends a migration, in the given phase.
  unfoldable pub end_migration : PostgresPhysicalReplica → SchemaMigrationPhase → M (Unit {0})
  end_migration replica phase = patch api replica (
      ReplicaField.schema_migration_job none
      ∷ ReplicaField.schema_migration_phase (some phase)
      ∷ [])

  unfoldable pub mark_schema_migration_complete : PostgresPhysicalReplica → M (Unit {0})
  unfolding end_migration
  mark_schema_migration_complete replica = end_migration replica SchemaMigrationPhase.complete

  unfoldable pub drop_persistent_schemas_on_target : String → List String → M (Unit {0})
  drop_persistent_schemas_on_target new_restore schemas = do
    answer api.databases.credentials
    dbname ← answer (api.databases.discover new_restore)
    answer (api.databases.connects new_restore dbname)
    try api.accepts (Call.drop_schemas new_restore schemas)

  -- Its Job goes, and the schemas that the target holds already, as far as that works within 60 s: an
  -- overrun is one more error that the clean-up may end in.
  unfoldable pub timeout_schema_migration : PostgresPhysicalReplica → String → M (Unit {0})
  timeout_schema_migration replica new_restore =
      let schemas = unwrap_or replica.persistent_schemas [] in
      do
        attempt api.accepts (Call.delete Kind.migration_job (migration_job_name replica.name))
        when (not (is_empty schemas))
            (catch (drop_persistent_schemas_on_target new_restore schemas) pure (λ e. pure tt))
        attempt api.accepts (Call.event "SchemaMigrationTimedOut")
        end_migration replica SchemaMigrationPhase.timeout_skipped

  unfoldable pub settle_migration : JobStatus → Job → PostgresPhysicalReplica → String → M Bool
  settle_migration JobStatus.active job replica new_restore =
      branch (migration_exceeded_budget api.cron_interval api.now job)
        (timeout_schema_migration replica new_restore >> pure true) (pure false)
  settle_migration JobStatus.succeeded job replica new_restore =
      let phase = succeeded_phase api.taken_migration in
      do
        note (Call.take_migration replica.name)
        when (is_partial phase)
            (attempt api.accepts (Call.event "SchemaMigrationPartial") >> pure tt)
        end_migration replica phase
        attempt api.accepts (Call.delete Kind.migration_job (migration_job_name replica.name))
        pure true
  settle_migration JobStatus.failed job replica new_restore =
      let last_error = unwrap_or api.taken_migration "no callback received" in
      do
        note (Call.take_migration replica.name)
        attempt api.accepts (Call.delete Kind.migration_job (migration_job_name replica.name))
        end_migration replica (SchemaMigrationPhase.failed last_error)
        answer (err (Error.schema_migration (String.◌++◌ "schema migration failed: " last_error)))

  -- The database of a restore; on a refused password the restore's password is reset, and the reconcile
  -- comes back.
  unfoldable pub with_database : String → (String → M Bool) → M Bool
  with_database restore_name rest = catch (answer (api.databases.discover restore_name)) rest λ e.
      branch (is_auth_error e) (ensure_credential_reset restore_name >> pure false) (answer (err e))

  unfoldable pub drop_preexisting : String → List String → M (Unit {0})
  drop_preexisting new_restore preexisting =
      when (not (is_empty preexisting))
        (try api.accepts (Call.drop_schemas new_restore preexisting))

  unfoldable pub create_migration_job : PostgresPhysicalReplica → M Bool
  create_migration_job replica = do
    try api.accepts (Call.create Kind.migration_job (migration_job_name replica.name))
    patch api replica (
        ReplicaField.schema_migration_job (some (migration_job_name replica.name))
        ∷ ReplicaField.schema_migration_phase (some SchemaMigrationPhase.active)
        ∷ [])
    pure false

  unfoldable pub prepare_target : PostgresPhysicalReplica → String → List String → String → M Bool
  prepare_target replica new_restore schemas target_dbname = do
    answer (api.databases.connects new_restore target_dbname)
    preexisting ← answer (api.databases.existing_schemas new_restore target_dbname schemas)
    drop_preexisting new_restore preexisting
    create_migration_job replica

  -- The size is that of the source's database beyond its snapshot, in exact arithmetic where the source
  -- goes through f64.
  unfoldable pub measure_source :
      PostgresPhysicalReplica
      → PostgresPhysicalRestore
      → PostgresPhysicalRestore
      → List String
      → String
      → M Bool
  measure_source replica new_restore old_restore all_schemas source_dbname = do
    answer (api.databases.connects old_restore.name source_dbname)
    schemas ← answer (api.databases.existing_schemas old_restore.name source_dbname all_schemas)
    size ← answer (api.databases.database_size old_restore.name source_dbname)
    branch (is_empty schemas) (mark_schema_migration_complete replica >> pure true) do
      patch api replica (
          ReplicaField.persistent_schema_data_size
            (size - unwrap_or (api.snapshot_bytes old_restore.snapshot_size) 0)
          ∷ [])
      with_database new_restore.name (prepare_target replica new_restore.name schemas)

  unfoldable pub start_schema_migration :
      PostgresPhysicalReplica
      → PostgresPhysicalRestore
      → PostgresPhysicalRestore
      → List String
      → M Bool
  start_schema_migration replica new_restore old_restore schemas = do
    answer api.databases.credentials
    with_database old_restore.name (measure_source replica new_restore old_restore schemas)

  unfoldable pub migrate_from :
      PostgresPhysicalReplica
      → PostgresPhysicalRestore
      → PostgresPhysicalRestore
      → List String
      → M Bool
  migrate_from replica new_restore old_restore schemas =
      branch (is_empty schemas) (mark_schema_migration_complete replica >> pure true) (
        branch (is_complete replica.schema_migration_phase) (pure true) do
          found ← answer (api.find_job (migration_job_name replica.name))
          cases found (start_schema_migration replica new_restore old_restore schemas)
              λ job. settle_migration (classify_job job) job replica new_restore.name)

  unfoldable pub reconcile_schema_migration :
      PostgresPhysicalReplica → PostgresPhysicalRestore → Option PostgresPhysicalRestore → M Bool
  reconcile_schema_migration replica new_restore old_restore_opt =
      cases replica.persistent_schemas
        (answer (err (Error.schema_migration "missing persistent_schemas config")))
        λ schemas.
          cases old_restore_opt (pure true)
            λ old_restore. migrate_from replica new_restore old_restore schemas
