-- ===== src/Replica/Build/Step.antt =====
-- `reconcile_schema_build` of src/controllers/replica/schema_build.rs: one pass of a restore's build.
use Prim.Native.String
use postgres_restore_operato.Prelude.{
  ℕ, ◌+◌, String, Bool, true, false, Option, none, some, List, [], ◌∷◌, ltb, leb, is_some,
}
use postgres_restore_operato.Types.{
  SchemaBuildResult, PostgresPhysicalReplica, PostgresPhysicalRestore,
}
use postgres_restore_operato.Effects.{
  Error, err, Kind, Call, RestoreField, M, ◌>>=◌, ◌>>◌, pure, answer, try, attempt, note, branch,
  cases, catch,
}
use postgres_restore_operato.Replica.{ReplicaApi}
use postgres_restore_operato.Replica.Build.{
  build_job_name, build_attempts, no_rank_text, no_group_text, unmigrated_text, BuildToDo,
  BuildOutcome, BuildStatus, EmptyBuild, empty_build, attempts_so_far, build_to_do, build_status,
  completed_build_result, build_failure,
}

abbrev pub artifacts_of : Option String → List String
artifacts_of none = []
artifacts_of (some id) = id ∷ []

-- A build that never ran or that failed.
abbrev failed_result : String → ℕ → Option ℕ → SchemaBuildResult
failed_result error elapsed bytes = record {
  built = false;
  error = some error;
  total_elapsed_seconds = elapsed;
  schema_bytes = bytes;
  artifacts = [];
}

module _ (api : ReplicaApi) where
  unfoldable pub record_schema_build : String → Option String → SchemaBuildResult → M (Unit {0})
  record_schema_build restore_name job_name result =
      try api.accepts
        (Call.patch_restore restore_name (RestoreField.schema_build job_name result ∷ []))

  unfoldable pub record_build_attempt : String → ℕ → M (Unit {0})
  record_build_attempt restore_name attempts =
      try api.accepts
        (Call.patch_restore restore_name (RestoreField.schema_build_attempts attempts ∷ []))

  unfoldable pub settle_failed : String → String → M Bool
  settle_failed restore_name error =
      record_schema_build restore_name none (failed_result error 0 none) >> pure false

  unfoldable pub retry_or_settle : PostgresPhysicalRestore → Error → M Bool
  retry_or_settle restore e =
      let attempts = attempts_so_far restore + 1 in
      branch (leb build_attempts attempts)
        (settle_failed restore.name
          (String.◌++◌ "the build could not be set up: " (api.rendered e)))
        (record_build_attempt restore.name attempts >> pure false)

  -- The delete is attempted.
  unfoldable pub delete_build_job : String → M (Unit {0})
  delete_build_job replica_name =
      attempt api.accepts (Call.delete Kind.build_job (build_job_name replica_name)) >> pure tt

  unfoldable pub discover_build_database : String → M String
  discover_build_database restore_name =
      answer api.databases.credentials >> answer (api.databases.discover restore_name)

  -- Where a pull Secret is configured, its copy; `none` where none is.
  unfoldable pub ensure_pull_secret : M (Unit {0})
  ensure_pull_secret =
      cases api.building.pull_secret (pure tt)
        λ source. do answer source; try api.accepts (Call.apply_pull_secret)

  -- A Job that is there already is another reconcile's, and left alone: the call is accepted then too.
  unfoldable pub create_build_job : String → M (Unit {0})
  create_build_job replica_name =
      try api.accepts (Call.create Kind.build_job (build_job_name replica_name))

  unfoldable pub start_build : PostgresPhysicalReplica → PostgresPhysicalRestore → M Bool
  start_build replica restore = do
    note (Call.take_schema replica.name)
    catch (discover_build_database restore.name)
        (λ dbname.
          catch ensure_pull_secret (λ pulled. create_build_job replica.name >> pure false)
            (retry_or_settle restore))
        (retry_or_settle restore)

  unfoldable pub settle_no_schema :
      EmptyBuild → PostgresPhysicalReplica → PostgresPhysicalRestore → ℕ → M Bool
  settle_no_schema EmptyBuild.rebuild replica restore elapsed = do
    record_build_attempt restore.name (attempts_so_far restore + 1)
    delete_build_job replica.name
    pure false
  settle_no_schema EmptyBuild.settle replica restore elapsed = do
    record_schema_build restore.name (some (build_job_name replica.name))
        (completed_build_result api.building.byte_length none none elapsed [])
    delete_build_job replica.name
    pure false

  -- A result that cannot be recorded puts the schema back.
  unfoldable pub record_schema :
      PostgresPhysicalReplica → PostgresPhysicalRestore → String → SchemaBuildResult → M Bool
  record_schema replica restore sql result =
      catch (record_schema_build restore.name (some (build_job_name replica.name)) result)
        (λ recorded. delete_build_job replica.name >> pure false)
        (λ e. note (Call.keep_schema replica.name sql) >> answer (err e))

  unfoldable pub finish_schema :
      PostgresPhysicalReplica
      → PostgresPhysicalRestore
      → String
      → ℕ
      → Option String
      → List String
      → M Bool
  finish_schema replica restore sql elapsed registration registered =
      record_schema replica restore sql
        (completed_build_result api.building.byte_length (some sql) registration elapsed registered)

  unfoldable pub registration_failed :
      PostgresPhysicalReplica → PostgresPhysicalRestore → String → ℕ → Error → M Bool
  registration_failed replica restore sql elapsed e =
      let attempts = attempts_so_far restore + 1 in
      branch (ltb attempts build_attempts)
        (do
          note (Call.keep_schema replica.name sql)
          record_build_attempt restore.name attempts
          pure false)
        (finish_schema replica restore sql elapsed
          (some (String.◌++◌ "canopy did not take the schema in: " (api.rendered e))) [])

  -- The version, group and rank are what the schema is registered for.
  unfoldable pub register_schema :
      PostgresPhysicalReplica
      → PostgresPhysicalRestore
      → String
      → String
      → String
      → ℕ
      → String
      → M Bool
  register_schema replica restore target group rank elapsed sql =
      cases api.building.canopy
        (finish_schema replica restore sql elapsed
          (some "no canopy client to register the schema with") [])
        λ register. do
          note (Call.register_schema target group rank sql)
          catch (answer (register sql))
              (λ artifact. finish_schema replica restore sql elapsed none (artifacts_of artifact))
              (registration_failed replica restore sql elapsed)

  unfoldable pub fail_build :
      PostgresPhysicalReplica → PostgresPhysicalRestore → BuildStatus → M Bool
  fail_build replica restore build = do
    record_schema_build restore.name (some (build_job_name replica.name)) (
        failed_result (build_failure api.building.masked_tail api.building.log api.building.secrets)
          build.elapsed_seconds build.delivered_bytes)
    note (Call.take_schema replica.name)
    delete_build_job replica.name
    pure false

  unfoldable pub by_outcome :
      BuildOutcome
      → PostgresPhysicalReplica
      → PostgresPhysicalRestore
      → String
      → String
      → String
      → BuildStatus
      → M Bool
  by_outcome BuildOutcome.not_started replica restore target group rank build =
      start_build replica restore
  by_outcome BuildOutcome.running replica restore target group rank build = pure false
  by_outcome BuildOutcome.succeeded replica restore target group rank build = do
    note (Call.take_schema replica.name)
    cases api.building.taken_schema
        (settle_no_schema
          (empty_build (is_some build.delivered_bytes) (attempts_so_far restore + 1)) replica
          restore build.elapsed_seconds)
        (register_schema replica restore target group rank build.elapsed_seconds)
  by_outcome BuildOutcome.failed replica restore target group rank build =
      fail_build replica restore build

  unfoldable pub do_build : BuildToDo → PostgresPhysicalReplica → PostgresPhysicalRestore → M Bool
  do_build (BuildToDo.build image target group rank) replica restore = do
    job ← answer (api.find_job (build_job_name replica.name))
    let build = build_status api.building.parse_bytes api.now job
    by_outcome build.outcome replica restore target group rank build
  do_build BuildToDo.no_target replica restore = pure true
  do_build BuildToDo.no_group replica restore = settle_failed restore.name no_group_text
  do_build BuildToDo.no_rank replica restore = settle_failed restore.name no_rank_text
  do_build BuildToDo.unmigrated replica restore = settle_failed restore.name unmigrated_text
  do_build BuildToDo.settled replica restore = note (Call.take_schema replica.name) >> pure true
  do_build BuildToDo.no_image replica restore = pure true

  unfoldable pub reconcile_schema_build : PostgresPhysicalReplica → PostgresPhysicalRestore → M Bool
  reconcile_schema_build replica restore =
      do_build (build_to_do api.building.parse_uuid replica restore) replica restore
