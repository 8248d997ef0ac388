-- ===== src/Replica/Steps.antt =====
-- What the redaction, the schema migration, the schema build and the grants of a switchover may do:
-- src/controllers/replica.rs and src/controllers/replica/{redaction,schema_build}.rs.
use postgres_restore_operato.Prelude.{
  ◌≡◌, ℕ, String, Bool, true, ◌&&◌, ◌||◌, Option, List, any, find, is_some, every_lem,
}
use postgres_restore_operato.Types.{RedactionSpec, PostgresPhysicalReplica, PostgresPhysicalRestore}
use postgres_restore_operato.Effects.{Error, M}
use postgres_restore_operato.Effects.Emits.{emits, bind-Emits, branch-Emits, for_each-Emits}
use postgres_restore_operato.Jobs.{Job, JobStatus}
use postgres_restore_operato.Replica.{ReplicaApi, is_active, is_switching}
use postgres_restore_operato.Replica.Redaction.{
  patch_phase, patch_settled, settle_redaction, fail_redaction, resolve_by_query, resolve_version,
  parse_body, fetch_manifest, reconcile_redaction, reconcile_redaction_step,
}
use postgres_restore_operato.Replica.Migration.{
  create_reset_job, settle_reset, ensure_credential_reset, end_migration,
  mark_schema_migration_complete, drop_persistent_schemas_on_target, timeout_schema_migration,
  settle_migration, with_database, drop_preexisting, create_migration_job, prepare_target,
  measure_source, start_schema_migration, migrate_from,
}
use postgres_restore_operato.Replica.Build.{BuildToDo, BuildOutcome, BuildStatus, EmptyBuild}
use postgres_restore_operato.Replica.Build.Step.{
  record_schema_build, record_build_attempt, settle_failed, retry_or_settle, delete_build_job,
  discover_build_database, ensure_pull_secret, create_build_job, start_build, settle_no_schema,
  record_schema, finish_schema, registration_failed, register_schema, fail_build, by_outcome,
  do_build,
}
use postgres_restore_operato.Replica.Grants.{grant_user, grant_in, reconcile_extra_user_grants}
use postgres_restore_operato.Replica.Allowed.{
  Restores, May, named, redaction_passed, migration_passed,
}

module _ (api : ReplicaApi) (replica : PostgresPhysicalReplica) (restores : Restores) where
  pub redaction_step-May :
      (spec : RedactionSpec) (name : String)
      → named is_switching name restores ≡ true
      → is_some replica.redaction ≡ true
      → May api replica restores (reconcile_redaction_step api replica spec name)
  unfolding reconcile_redaction_step patch_phase patch_settled settle_redaction fail_redaction
      resolve_by_query resolve_version parse_body fetch_manifest reconcile_redaction
  redaction_step-May spec name h k = search emits depth 40

  reset-May :
      (name : String) (status : JobStatus)
      → named (λ r. is_switching r || is_active r) name restores ≡ true
      → May api replica restores (settle_reset api status name)
  unfolding settle_reset
  reset-May name JobStatus.active h = search emits
  reset-May name JobStatus.succeeded h = search emits depth 20
  reset-May name JobStatus.failed h = search emits depth 20

  ensure_credential_reset-May :
      (name : String)
      → named (λ r. is_switching r || is_active r) name restores ≡ true
      → May api replica restores (ensure_credential_reset api name)
  unfolding ensure_credential_reset create_reset_job
  ensure_credential_reset-May name h = search (emits, reset-May) depth 40

  with_database-May :
      (name : String) (rest : String → M Bool)
      → named (λ r. is_switching r || is_active r) name restores ≡ true
      → ((dbname : String) → May api replica restores (rest dbname))
      → May api replica restores (with_database api name rest)
  unfolding with_database
  with_database-May name rest h k = search (emits, ensure_credential_reset-May, k) depth 40

  settle_migration-May :
      (status : JobStatus) (job : Job) (name : String)
      → named (λ r. is_switching r && redaction_passed api replica r) name restores ≡ true
      → May api replica restores (settle_migration api status job replica name)
  unfolding settle_migration timeout_schema_migration end_migration
      drop_persistent_schemas_on_target
  settle_migration-May JobStatus.active job name h = search emits depth 40
  settle_migration-May JobStatus.succeeded job name h = search emits depth 40
  settle_migration-May JobStatus.failed job name h = search emits depth 40

  pub grants-May :
      (name : String) → May api replica restores (reconcile_extra_user_grants api replica name)
  unfolding reconcile_extra_user_grants grant_in grant_user
  grants-May name = branch-Emits _ (search emits) (
      bind-Emits _ _ (search emits) λ _. bind-Emits _ _ (search emits) λ _.
        bind-Emits _ _ (search emits) λ superuser.
          branch-Emits _
            (bind-Emits _ _ (search emits) λ dbs. for_each-Emits _ dbs (
              every_lem
                (λ db.
                  bind-Emits _ _ (search emits)
                    λ _. for_each-Emits _ _ (every_lem (λ u. search emits) _))
                dbs))
            (search emits))

  -- The migration runs between the restore that is active and the one that waits for its switchover.
  module _ (switching active : PostgresPhysicalRestore)
      (redacted : named
          (λ r. is_switching r && redaction_passed api replica r)
          switching.name
          restores
        ≡ true)
      (anywhere : any (λ r. is_switching r && redaction_passed api replica r) restores ≡ true)
      (new_known : named (λ r. is_switching r || is_active r) switching.name restores ≡ true)
      (old_known : named (λ r. is_switching r || is_active r) active.name restores ≡ true) where
    prepare_target-May :
        (schemas : List String) (dbname : String)
        → May api replica restores (prepare_target api replica switching.name schemas dbname)
    unfolding prepare_target drop_preexisting create_migration_job
    prepare_target-May schemas dbname = search emits depth 40

    measure_source-May :
        (schemas : List String) (dbname : String)
        → May api replica restores (measure_source api replica switching active schemas dbname)
    unfolding measure_source mark_schema_migration_complete end_migration
    measure_source-May schemas dbname =
        search (emits, with_database-May, prepare_target-May) depth 40

    pub migrate_from-May :
        (schemas : List String)
        → May api replica restores (migrate_from api replica switching active schemas)
    unfolding migrate_from start_schema_migration mark_schema_migration_complete end_migration
    migrate_from-May schemas =
        search (emits, with_database-May, measure_source-May, settle_migration-May) depth 40

  empty-May :
      (empty : EmptyBuild) (restore : PostgresPhysicalRestore) (elapsed : ℕ)
      → May api replica restores (settle_no_schema api empty replica restore elapsed)
  unfolding settle_no_schema record_build_attempt delete_build_job record_schema_build
  empty-May EmptyBuild.rebuild restore elapsed = search emits depth 40
  empty-May EmptyBuild.settle restore elapsed = search emits depth 40

  finish-May :
      (restore : PostgresPhysicalRestore) (sql : String) (elapsed : ℕ)
      (registration : Option String) (registered : List String)
      → May api replica restores
          (finish_schema api replica restore sql elapsed registration registered)
  unfolding finish_schema record_schema record_schema_build delete_build_job
  finish-May restore sql elapsed registration registered = search emits depth 40

  register-May :
      (restore : PostgresPhysicalRestore) (target group rank : String) (elapsed : ℕ) (sql : String)
      → May api replica restores (register_schema api replica restore target group rank elapsed sql)
  unfolding register_schema registration_failed record_build_attempt
  register-May restore target group rank elapsed sql = search (emits, finish-May) depth 40

  settle_failed-May :
      (name error : String) → May api replica restores (settle_failed api name error)
  unfolding settle_failed record_schema_build
  settle_failed-May name error = search emits depth 20

  retry-May :
      (restore : PostgresPhysicalRestore) (e : Error)
      → May api replica restores (retry_or_settle api restore e)
  unfolding retry_or_settle record_build_attempt
  retry-May restore e = search (emits, settle_failed-May) depth 20

  module _ (switching : PostgresPhysicalRestore)
      (ready : any
          (λ r.
            is_switching r
            && (redaction_passed api replica r
                && migration_passed api replica (find is_active restores) r))
          restores
        ≡ true) where
    by_outcome-May :
        (outcome : BuildOutcome) (target group rank : String) (build : BuildStatus)
        → May api replica restores
            (by_outcome api outcome replica switching target group rank build)
    unfolding by_outcome start_build discover_build_database ensure_pull_secret create_build_job
        fail_build record_schema_build delete_build_job
    by_outcome-May BuildOutcome.not_started target group rank build =
        search (emits, retry-May) depth 40
    by_outcome-May BuildOutcome.running target group rank build = search emits
    by_outcome-May BuildOutcome.succeeded target group rank build =
        search (emits, empty-May, register-May) depth 40
    by_outcome-May BuildOutcome.failed target group rank build = search emits depth 40

    pub do_build-May :
        (to_do : BuildToDo) → May api replica restores (do_build api to_do replica switching)
    unfolding do_build
    do_build-May BuildToDo.settled = search emits depth 20
    do_build-May BuildToDo.no_target = search emits
    do_build-May BuildToDo.no_image = search emits
    do_build-May BuildToDo.no_group = settle_failed-May _ _
    do_build-May BuildToDo.no_rank = settle_failed-May _ _
    do_build-May BuildToDo.unmigrated = settle_failed-May _ _
    do_build-May (BuildToDo.build image target group rank) = search (emits, by_outcome-May) depth 20
