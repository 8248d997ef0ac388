-- ===== src/Replica/Build.antt =====
-- The reporting-schema build of a switchover: src/controllers/replica/schema_build.rs. An i64 count or
-- duration is a natural number.
pub mod Step
pub mod Progress
pub mod Settles
pub mod Passing
use Prim.Native.String
use postgres_restore_operato.Prelude.{
  ℕ, suc, ◌+◌, ◌-◌, ◌/◌, String, Bool, true, false, not, ◌&&◌, Option, none, some, List, [], ◌∷◌,
  ltb, leb, is_some, is_none, unwrap_or, ◌==◌,
}
use postgres_restore_operato.Types.{
  Timestamp, label, CanopySource, MigrationTarget, MigrationResult, SchemaBuildResult,
  PostgresPhysicalReplica, PostgresPhysicalRestore,
}
use postgres_restore_operato.Effects.{
  Error, Result, ok, err, Kind, Call, RestoreField, M, ◌>>=◌, ◌>>◌, pure, answer, try, attempt,
  note, branch, cases, catch,
}
use postgres_restore_operato.Jobs.{Job, JobStatus, JobStatusFields, classify_job}
use postgres_restore_operato.Replica.{ReplicaApi}

abbrev pub build_job_name : String → String
build_job_name replica_name = String.◌++◌ replica_name "-schema-build"

abbrev pub build_attempts : ℕ
build_attempts = 5

abbrev pub no_rank_text : String
no_rank_text = "the replica names no environment, and a schema is registered against one"

abbrev pub no_group_text : String
no_group_text = "the replica names no group to register the schema for"

abbrev pub unmigrated_text : String
unmigrated_text =
    "the restore did not migrate to the target version, so there is no database to build against"

pub data BuildToDo : Type 0 where
  settled no_target no_image no_group no_rank unmigrated : BuildToDo
  -- Image, target version, group and rank.
  build : String → String → String → String → BuildToDo

pub data BuildOutcome : Type 0 where
  not_started running succeeded failed : BuildOutcome

pub record BuildStatus : Type 0 where
  pub outcome : BuildOutcome
  pub elapsed_seconds : ℕ
  pub delivered_bytes : Option ℕ

pub data EmptyBuild : Type 0 where
  rebuild settle : EmptyBuild

unfoldable pub empty_build : Bool → ℕ → EmptyBuild
empty_build receipted attempts = elim (receipted && ltb attempts build_attempts) [
  | true ↦ EmptyBuild.rebuild
  | false ↦ EmptyBuild.settle
]

abbrev pub attempts_so_far : PostgresPhysicalRestore → ℕ
attempts_so_far restore = unwrap_or restore.schema_build_attempts 0

abbrev migrated_by : Option MigrationResult → Bool
migrated_by none = false
migrated_by (some result) = is_none result.failed_migration

unfoldable pub migrated_to_target : PostgresPhysicalRestore → Bool
migrated_to_target restore = migrated_by restore.migration_result

abbrev first_some : Option String → Option String → Option String
first_some none other = other
first_some (some a) other = some a

abbrev parse_if : (String → Option String) → Option String → Option String
parse_if parse_uuid none = none
parse_if parse_uuid (some text) = parse_uuid text

abbrev group_of : Option CanopySource → Option String
group_of none = none
group_of (some source) = some source.group

unfoldable pub build_group : (String → Option String) → PostgresPhysicalReplica → Option String
build_group parse_uuid replica =
    first_some (parse_if parse_uuid (group_of replica.canopy_source))
      (parse_if parse_uuid (label "pgro.bes.au/group" replica.labels))

abbrev with_rank : String → String → String → Option String → BuildToDo
with_rank image target group none = BuildToDo.no_rank
with_rank image target group (some rank) = elim (rank == "") [
  | true ↦ BuildToDo.no_rank
  | false ↦ BuildToDo.build image target group rank
]

abbrev with_group : String → String → Option String → Option String → BuildToDo
with_group image target none rank = BuildToDo.no_group
with_group image target (some group) rank = with_rank image target group rank

abbrev with_target :
    String → Option MigrationTarget → Bool → Option String → Option String → BuildToDo
with_target image none migrated group rank = BuildToDo.no_target
with_target image (some target) false group rank = BuildToDo.unmigrated
with_target image (some target) true group rank = with_group image target.version group rank

abbrev with_image :
    Option String → Option MigrationTarget → Bool → Option String → Option String → BuildToDo
with_image none target migrated group rank = BuildToDo.no_image
with_image (some image) target migrated group rank = with_target image target migrated group rank

unfoldable pub build_to_do :
    (String → Option String) → PostgresPhysicalReplica → PostgresPhysicalRestore → BuildToDo
build_to_do parse_uuid replica restore = elim restore.schema_build_result [
  | some result ↦ BuildToDo.settled
  | none ↦
      with_image restore.builder_image restore.migrate_to (migrated_to_target restore)
        (build_group parse_uuid replica) restore.rank
]

abbrev elapsed_since : Timestamp → Option Timestamp → Option Timestamp → ℕ
elapsed_since now none completion = 0
elapsed_since now (some start) completion = (unwrap_or completion now - start) / 1000000000

abbrev job_elapsed_seconds : Timestamp → Option JobStatusFields → ℕ
job_elapsed_seconds now none = 0
job_elapsed_seconds now (some s) = elapsed_since now s.start_time s.completion_time

abbrev outcome_by : JobStatus → BuildOutcome
outcome_by JobStatus.succeeded = BuildOutcome.succeeded
outcome_by JobStatus.failed = BuildOutcome.failed
outcome_by JobStatus.active = BuildOutcome.running

abbrev outcome_of : Job → BuildOutcome
outcome_of job = elim job.deletion_timestamp [
  | some at ↦ BuildOutcome.running
  | none ↦ outcome_by (classify_job job)
]

abbrev bytes_of : (String → Option ℕ) → Option String → Option ℕ
bytes_of parse none = none
bytes_of parse (some text) = parse text

unfoldable pub build_status : (String → Option ℕ) → Timestamp → Option Job → BuildStatus
build_status parse_bytes now none = record {
  outcome = BuildOutcome.not_started;
  elapsed_seconds = 0;
  delivered_bytes = none;
}
build_status parse_bytes now (some job) = record {
  outcome = outcome_of job;
  elapsed_seconds = job_elapsed_seconds now job.status;
  delivered_bytes = bytes_of parse_bytes job.receipt;
}

abbrev build_error : Option String → Option String → Option String
build_error (some registration) sql = some registration
build_error none (some sql) = none
build_error none none = some "the build produced no schema"

abbrev length_of : (String → ℕ) → Option String → Option ℕ
length_of byte_length none = none
length_of byte_length (some sql) = some (byte_length sql)

unfoldable pub completed_build_result :
    (String → ℕ) → Option String → Option String → ℕ → List String → SchemaBuildResult
completed_build_result byte_length sql registration elapsed_seconds artifacts = record {
  built = is_some sql && is_none registration;
  error = build_error registration sql;
  total_elapsed_seconds = elapsed_seconds;
  schema_bytes = length_of byte_length sql;
  artifacts = artifacts;
}

unfoldable pub build_failure :
    (String → List String → String) → Option String → Option (List String) → String
build_failure masked_tail none secrets = "the build job failed"
build_failure masked_tail (some log) none =
    "the build job failed (log withheld: its secrets could not be read to mask it)"
build_failure masked_tail (some log) (some secrets) = elim (masked_tail log secrets == "") [
  | true ↦ "the build job failed"
  | false ↦ String.◌++◌ "the build job failed:\n" (masked_tail log secrets)
]
