-- ===== src/Replica/Passing.antt =====
-- When each gate of a switchover opens: the steps of src/controllers/replica.rs and
-- src/controllers/replica/{redaction,schema_build}.rs against the condition that each waits for.
use postgres_restore_operato.Prelude.{
  ◌≡◌, refl, String, Bool, true, false, ◌||◌, Option, none, some, List, arith, is_empty, sym, subst,
}
use postgres_restore_operato.Types.{RedactionSpec, PostgresPhysicalReplica, PostgresPhysicalRestore}
use postgres_restore_operato.Effects.{Result, ok, err, M, answer, cases}
use postgres_restore_operato.Effects.Opens.{
  Opens, opening, bind-Opens, answer-Opens_if, catch-Opens_if, cases-Opens_if, branch-Opens_if,
  pure-Opens,
}
use postgres_restore_operato.Jobs.{Job, JobStatus, classify_job}
use postgres_restore_operato.Replica.{ReplicaApi}
use postgres_restore_operato.Replica.Redaction.{
  settle_redaction, fail_redaction, reconcile_redaction_step,
}
use postgres_restore_operato.Replica.Redaction.Succeeds.{
  is_redacted, run_succeeds, phase_done, reconcile_redaction_succeeds,
}
use postgres_restore_operato.Replica.Migration.{
  migration_job_name, migration_exceeded_budget, is_complete, settle_migration, with_database,
  create_migration_job, prepare_target, measure_source, start_schema_migration, migrate_from,
  reconcile_schema_migration,
}

module _ (api : ReplicaApi) (replica : PostgresPhysicalReplica) where
  -- The gate of the redaction opens only where the replica's redaction phase says that a redaction ended (a
  -- phase of the replica, which may be that of an earlier restore), or where the whole of this one succeeds: the
  -- spec is consistent, the database opens, the version and the manifest are there, the manifest is applied, and,
  -- for a read-only replica without persistent schemas, the read-only mode is put back.
  pub reconcile_redaction_step-Opens :
      (spec : RedactionSpec) (name : String)
      → Opens
          (is_redacted replica.redaction_phase || run_succeeds api replica spec name)
          (reconcile_redaction_step api replica spec name)
  unfolding reconcile_redaction_step settle_redaction fail_redaction
  reconcile_redaction_step-Opens spec name =
      branch-Opens_if _
        (λ done. pure-Opens true (ground (arith, done, phase_done replica.redaction_phase)))
        λ _. bind-Opens _ _ λ _.
          catch-Opens_if _
            (λ outcome run. bind-Opens _ _ λ _.
              pure-Opens true
                (ground (arith, reconcile_redaction_succeeds api replica spec name outcome run)))
            λ e. search opening

abbrev ends : ReplicaApi → JobStatus → Job → Bool
ends api JobStatus.active job = migration_exceeded_budget api.cron_interval api.now job
ends api JobStatus.succeeded job = true
ends api JobStatus.failed job = false

abbrev nothing_found : Result (List String) → Bool
nothing_found (ok schemas) = is_empty schemas
nothing_found (err e) = false

abbrev empty_source : ReplicaApi → String → List String → Result String → Bool
empty_source api old schemas (ok dbname) =
    nothing_found (api.databases.existing_schemas old dbname schemas)
empty_source api old schemas (err e) = false

-- The migration's Job has ended well or is over its budget, or there is none and the source holds none
-- of the schemas.
abbrev job_ends : ReplicaApi → String → List String → Result (Option Job) → Bool
job_ends api old schemas (ok (some job)) = ends api (classify_job job) job
job_ends api old schemas (ok none) = empty_source api old schemas (api.databases.discover old)
job_ends api old schemas (err e) = false

abbrev from_settled :
    ReplicaApi → PostgresPhysicalReplica → List String → Option PostgresPhysicalRestore → Bool
from_settled api replica schemas none = true
from_settled api replica schemas (some old) =
    is_empty schemas
    || (is_complete replica.schema_migration_phase
        || job_ends api old.name schemas (api.find_job (migration_job_name replica.name)))

abbrev pub migration_settled :
    ReplicaApi
    → PostgresPhysicalReplica
    → Option PostgresPhysicalRestore
    → Option (List String)
    → Bool
migration_settled api replica old none = false
migration_settled api replica old (some schemas) = from_settled api replica schemas old

module _ (api : ReplicaApi) (replica : PostgresPhysicalReplica) where
  settle_migration-Opens :
      {condition : Bool} (status : JobStatus) (job : Job) (name : String)
      → (ends api status job ≡ true → condition ≡ true)
      → Opens condition (settle_migration api status job replica name)
  unfolding settle_migration
  settle_migration-Opens JobStatus.active job name h =
      branch-Opens_if _ (λ over. bind-Opens _ _ λ _. pure-Opens true (ground (arith, h over)))
        (λ _. pure-Opens false refl)
  settle_migration-Opens JobStatus.succeeded job name h = bind-Opens _ _ λ _.
      bind-Opens _ _
        λ _. bind-Opens _ _ λ _. bind-Opens _ _ λ _. pure-Opens true (ground (arith, h refl))
  settle_migration-Opens JobStatus.failed job name h = search opening depth 20

  with_database-Opens :
      {condition : Bool} (name : String) (rest : String → M Bool)
      → ((dbname : String)
          → api.databases.discover name ≡ ok dbname
          → Opens condition (rest dbname))
      → Opens condition (with_database api name rest)
  unfolding with_database answer
  with_database-Opens name rest h = catch-Opens_if _ h λ e. search opening depth 20

  prepare_target-Opens :
      {condition : Bool} (name : String) (schemas : List String) (dbname : String)
      → Opens condition (prepare_target api replica name schemas dbname)
  unfolding prepare_target create_migration_job
  prepare_target-Opens name schemas dbname = search opening depth 20

  measure_source-Opens :
      {condition : Bool} (new_restore old_restore : PostgresPhysicalRestore) (schemas : List String)
      (dbname : String)
      → (nothing_found (api.databases.existing_schemas old_restore.name dbname schemas) ≡ true
          → condition ≡ true)
      → Opens condition (measure_source api replica new_restore old_restore schemas dbname)
  unfolding measure_source
  measure_source-Opens new_restore old_restore schemas dbname h = bind-Opens _ _ λ _.
      answer-Opens_if _ _ λ existing read. bind-Opens _ _ λ size.
        branch-Opens_if _
          (λ empty. bind-Opens _ _ λ _. pure-Opens true (ground (arith, h (rw read empty))))
          λ _.
            bind-Opens _ _ λ _. with_database-Opens _ _ λ target _. prepare_target-Opens _ _ target

  migrate_from-Opens :
      (new_restore old_restore : PostgresPhysicalRestore) (schemas : List String)
      → Opens
          (from_settled api replica schemas (some old_restore))
          (migrate_from api replica new_restore old_restore schemas)
  unfolding migrate_from start_schema_migration
  migrate_from-Opens new_restore old_restore schemas =
      branch-Opens_if _ (λ empty. bind-Opens _ _ λ _. pure-Opens true (ground (arith, empty)))
        λ _.
          branch-Opens_if _ (λ complete. pure-Opens true (ground (arith, complete)))
            λ _. answer-Opens_if _ _ λ job read.
              cases-Opens_if job
                (λ missing. bind-Opens _ _ λ _. with_database-Opens _ _ λ dbname found.
                  measure_source-Opens new_restore old_restore schemas dbname
                    λ nothing. rw (read, missing, found) (ground (arith, nothing)))
                λ there exists.
                  settle_migration-Opens _ there _ λ over. rw (read, exists) (ground (arith, over))

  -- The gate of the schema migration opens only where there is no active restore to copy from, no schema
  -- to copy, the phase is complete, the migration's Job succeeded or is over its budget, or there is no
  -- Job and the active restore holds none of the schemas: a running, failed or unreadable migration,
  -- and a refused password, hold the switchover.
  pub reconcile_schema_migration-Opens :
      (new_restore : PostgresPhysicalRestore) (old_restore : Option PostgresPhysicalRestore)
      → Opens
          (migration_settled api replica old_restore replica.persistent_schemas)
          (reconcile_schema_migration api replica new_restore old_restore)
  unfolding reconcile_schema_migration
  reconcile_schema_migration-Opens new_restore none =
      cases-Opens_if _ (λ _. search opening)
        λ schemas asked. unfold cases in pure-Opens true (rw asked refl)
  reconcile_schema_migration-Opens new_restore (some old_restore) =
      cases-Opens_if _ (λ _. search opening)
        λ schemas asked.
          unfold cases in
          subst
            (λ o.
              Opens (migration_settled api replica (some old_restore) o)
                (migrate_from api replica new_restore old_restore schemas))
            (sym asked) (migrate_from-Opens new_restore old_restore schemas)
