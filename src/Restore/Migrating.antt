-- ===== src/Restore/Migrating.antt =====
-- `reconcile_migrating` of src/controllers/restore/migration.rs. What postgres answers is in
-- `RestoreApi`; the result reader is not modelled.
use postgres_restore_operato.Prelude.{
  String, Bool, not, ◌&&◌, ◌||◌, Option, List, [], ◌∷◌, ltb, eqb, ◌==◌, if◌then◌else◌, is_empty,
  filter,
}
use postgres_restore_operato.Types.{
  RestorePhase, MigrationTarget, PostgresPhysicalReplica, PostgresPhysicalRestore,
}
use postgres_restore_operato.Effects.{
  Error, Message, Result, ok, err, Kind, RestoreField, Call, M, ◌>>=◌, ◌>>◌, pure, answer, try,
  when, cases, branch, Action, requeue,
}
use postgres_restore_operato.Jobs.{Job, succeeded_count, failed_count}
use postgres_restore_operato.Restore.{RestoreApi, migration_job_name}
use postgres_restore_operato.Restore.Failure.{fail_restore}
use postgres_restore_operato.Restore.Handlers.{get_replica}
use text.Mathlib.Text.{starts_with}

unfoldable pub is_droppable_schema : String → Bool
is_droppable_schema schema =
    not (schema == "public" || schema == "information_schema") && not (starts_with schema "pg_")

unfoldable pub partition_droppable : List String → List String × List String
partition_droppable schemas =
    (filter is_droppable_schema schemas, filter (λ s. not (is_droppable_schema s)) schemas)

module _ (api : RestoreApi) where
  unfoldable pub drop_droppable : String → List String → M (Unit {0})
  drop_droppable name droppable = when (not (is_empty droppable)) do
    answer api.connects
    present ← answer (api.existing_schemas droppable)
    when (not (is_empty present)) (try api.accepts (Call.drop_schemas name present))

  unfoldable pub drop_pre_migrate_schemas : Option (List String) → String → M (Unit {0})
  unfolding partition_droppable drop_droppable
  drop_pre_migrate_schemas named name =
      cases named (pure tt) (λ schemas. drop_droppable name (partition_droppable schemas).0)

  unfoldable pub run_pre_migrate_sql : Option String → String → M (Unit {0})
  run_pre_migrate_sql statements name =
      cases statements (pure tt)
        λ sql. do answer api.connects; try api.accepts (Call.run_sql name sql)

  baseline_patch : Option String → String → M (Unit {0})
  baseline_patch latest name =
      cases latest (pure tt)
        λ at. try api.accepts (Call.patch_restore name (RestoreField.migration_baseline at ∷ []))

  unfoldable pub start_migration : PostgresPhysicalReplica → String → M Job
  unfolding baseline_patch
  start_migration replica name = do
    latest ← answer api.latest_batch_at
    baseline_patch latest name
    drop_pre_migrate_schemas replica.pre_migrate_drop_schemas name
    run_pre_migrate_sql replica.pre_migrate_sql name
    try api.accepts (Call.create Kind.job (migration_job_name name))
    pure (api.created_job (migration_job_name name))

  finish_migration : Option String → Job → String → M Action
  finish_migration baseline job name =
      let failed = ltb 0 (failed_count job) in
      branch (eqb (succeeded_count job) 0 && eqb (failed_count job) 0) (requeue 15) do
        result ← answer (api.read_result baseline failed)
        try api.accepts (
            Call.patch_restore name (
              RestoreField.phase RestorePhase.ready
              ∷ RestoreField.migration_job (migration_job_name name)
                  (if failed then "Failed" else "Succeeded")
              ∷ RestoreField.migration_result result
              ∷ []))
        requeue 1

  run_migration : PostgresPhysicalReplica → PostgresPhysicalRestore → String → M Action
  unfolding finish_migration
  run_migration replica restore name = do
    existing ← answer (api.find_job (migration_job_name name))
    job ← cases existing (start_migration replica name) (λ job. pure job)
    finish_migration restore.migration_baseline job name

  unfoldable pub with_database :
      Result String → PostgresPhysicalReplica → PostgresPhysicalRestore → String → String → M Action
  unfolding run_migration
  with_database (ok dbname) replica restore name namespace = run_migration replica restore name
  with_database (err Error.no_application_database) replica restore name namespace =
      fail_restore api namespace name restore.replica (RestoreField.phase RestorePhase.failed ∷ [])
        (Message.text "restore contains no application database")
  with_database (err e) replica restore name namespace = answer (err e)

  migrate_to : Option MigrationTarget → PostgresPhysicalRestore → String → String → M Action
  migrate_to target restore name namespace =
      cases target
        (try api.accepts (Call.patch_restore name (RestoreField.phase RestorePhase.ready ∷ []))
          >> requeue 1)
        λ version. do
          replica ← get_replica api restore.replica
          answer api.credentials
          with_database api.database replica restore name namespace

  unfoldable pub reconcile_migrating : PostgresPhysicalRestore → String → String → M Action
  unfolding migrate_to
  reconcile_migrating restore name namespace = migrate_to restore.migrate_to restore name namespace
