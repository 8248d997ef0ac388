-- ===== src/Canopy/Report.antt =====
-- The verification report to canopy: src/controllers/canopy/verification.rs, with `application_database` of
-- src/controllers/postgres.rs. The `health_details` that people read, the transfer counters and the time
-- of the report stand as one argument each.
use postgres_restore_operato.Prelude.{
  ℕ, String, Bool, true, false, not, ◌&&◌, ◌||◌, Option, none, some, List, [], ◌∷◌, filter, leb,
  ◌==◌, is_some, unwrap_or, if◌then◌else◌,
}
use postgres_restore_operato.Labels.{or_insert_all}
use postgres_restore_operato.Types.{
  Labels, label, MigrationTarget, MigrationResult, SchemaBuildResult, PostgresPhysicalReplica,
  PostgresPhysicalRestore,
}

pub data RunOutcome : Type 0 where
  success failure : RunOutcome

pub record CanopyIds : Type 0 where
  pub group : String
  pub server_id : String
  pub replica_id : String

-- What a version's migration came to; the times of its steps are those of the result.
pub record MigrationArgs : Type 0 where
  pub target_version_id : String
  pub result : MigrationResult

pub record ReportingSchemaArgs : Type 0 where
  pub artifacts : List String
  pub built : Bool
  pub error : Option String
  pub target_version : Option String
  pub target_version_id : Option String

pub record VerificationArgs : Type 0 where
  pub ids : CanopyIds
  pub migration : Option MigrationArgs
  pub reporting_schema : Option ReportingSchemaArgs
  pub run_id : Option String
  pub type_ : String
  pub intent : String
  pub snapshot_id : String
  pub outcome : RunOutcome
  pub error : Option String
  pub replica_healthy : Bool
  pub postgres_version : Option String

-- What a report reads: whether there is a canopy client, the labels of the replica's namespace, and the
-- sizes of the restore's databases, if they could be read.
pub record ReportApi : Type 0 where
  pub canopy : Bool
  pub namespace_labels : Option Labels
  pub parse_uuid : String → Option String
  pub sizes : Option (List (String × ℕ))

-- `Option::and_then`.
abbrev pub and_then : Option String → (String → Option String) → Option String
and_then none f = none
and_then (some a) f = f a

abbrev pub ids_by : Option String → Option String → Option String → Option CanopyIds
ids_by (some group) (some server_id) (some replica_id) =
    some (record { group = group; server_id = server_id; replica_id = replica_id })
ids_by (some _) (some _) none = none
ids_by (some _) none _ = none
ids_by none _ _ = none

-- The names of the missing labels are only logged.
unfoldable pub canopy_ids : (String → Option String) → Labels → Option CanopyIds
canopy_ids parse_uuid labels =
    ids_by (and_then (label "pgro.bes.au/group" labels) parse_uuid)
      (and_then (label "pgro.bes.au/server" labels) parse_uuid)
      (and_then (label "pgro.bes.au/declaration-id" labels) parse_uuid)

abbrev pub fill_missing_labels : Labels → Labels → Labels
fill_missing_labels = or_insert_all

-- The labels that a report goes by, and the identities that they hold.
abbrev pub with_fallback :
    (String → Option String) → Labels → Option Labels → Option CanopyIds → Labels × Option CanopyIds
with_fallback parse_uuid labels namespace_labels (some ids) = (labels, some ids)
with_fallback parse_uuid labels none none = (labels, none)
with_fallback parse_uuid labels (some fallback) none =
    let filled = fill_missing_labels labels fallback in (filled, canopy_ids parse_uuid filled)

unfoldable pub identify : ReportApi → Labels → Labels × Option CanopyIds
identify api labels =
    with_fallback api.parse_uuid labels api.namespace_labels (canopy_ids api.parse_uuid labels)

abbrev is_system : String → Bool
is_system name = name == "postgres" || (name == "template0" || name == "template1")

-- `max_by_key` on the sizes: the last of the largest.
abbrev pub later_or : String × ℕ → Option (String × ℕ) → String × ℕ
later_or database none = database
later_or database (some best) = if leb database.1 best.1 then best else database

unfoldable pub max_by_size : List (String × ℕ) → Option (String × ℕ)
max_by_size [] = none
max_by_size (database ∷ sizes) = some (later_or database (max_by_size sizes))

abbrev pub application_databases : List (String × ℕ) → List (String × ℕ)
application_databases sizes = filter (λ database. not (is_system database.0)) sizes

abbrev pub name_of : Option (String × ℕ) → Option String
name_of none = none
name_of (some database) = some database.0

unfoldable pub application_database : List (String × ℕ) → Option String
application_database sizes = name_of (max_by_size (application_databases sizes))

-- A cluster whose databases could be read, and that holds none of an application.
abbrev pub is_empty_cluster : Option (List (String × ℕ)) → Bool
is_empty_cluster none = false
is_empty_cluster (some sizes) = not (is_some (application_database sizes))

unfoldable pub verdict :
    RunOutcome → Option String → Option (List (String × ℕ)) → RunOutcome × Option String
verdict RunOutcome.failure error sizes = (RunOutcome.failure, error)
verdict RunOutcome.success error sizes = elim (is_empty_cluster sizes) [
  | true ↦ (RunOutcome.failure, some "restore contains no application database")
  | false ↦ (RunOutcome.success, error)
]

abbrev pub is_success : RunOutcome → Bool
is_success RunOutcome.success = true
is_success RunOutcome.failure = false

-- `filter_map` of the artifacts that parse.
unfoldable parsed_all : (String → Option String) → List String → List String
parsed_all parse_uuid [] = []
parsed_all parse_uuid (id ∷ ids) =
    let rest = parsed_all parse_uuid ids in
    elim (parse_uuid id) [ none ↦ rest | some parsed ↦ parsed ∷ rest ]

abbrev version_of : Option MigrationTarget → Option String
version_of none = none
version_of (some target) = some target.version

abbrev version_id_of : Option MigrationTarget → Option String
version_id_of none = none
version_id_of (some target) = some target.version_id

unfoldable pub reporting_schema_args :
    (String → Option String) → SchemaBuildResult → Option MigrationTarget → ReportingSchemaArgs
unfolding parsed_all
reporting_schema_args parse_uuid result target = record {
  artifacts = parsed_all parse_uuid result.artifacts;
  built = result.built;
  error = result.error;
  target_version = version_of target;
  target_version_id = and_then (version_id_of target) parse_uuid;
}

abbrev schema_of :
    (String → Option String)
    → Option MigrationTarget
    → Option SchemaBuildResult
    → Option ReportingSchemaArgs
schema_of parse_uuid target none = none
schema_of parse_uuid target (some result) = some (reporting_schema_args parse_uuid result target)

unfoldable pub reporting_schema_for :
    (String → Option String) → String → PostgresPhysicalRestore → Option ReportingSchemaArgs
reporting_schema_for parse_uuid intent restore = elim (intent == "reporting-schema") [
  | true ↦ schema_of parse_uuid restore.migrate_to restore.schema_build_result
  | false ↦ none
]

abbrev migration_by : MigrationResult → Option String → Option MigrationArgs
migration_by result none = none
migration_by result (some id) = some (record { target_version_id = id; result = result })

abbrev migration_args :
    (String → Option String)
    → Option MigrationResult
    → Option MigrationTarget
    → Option MigrationArgs
migration_args parse_uuid (some result) (some target) =
    migration_by result (parse_uuid target.version_id)
migration_args parse_uuid (some _) none = none
migration_args parse_uuid none _ = none

unfoldable pub migration_for :
    (String → Option String) → String → PostgresPhysicalRestore → Option MigrationArgs
migration_for parse_uuid intent restore = elim (intent == "upgrade") [
  | true ↦ migration_args parse_uuid restore.migration_result restore.migrate_to
  | false ↦ none
]

unfoldable pub build_args :
    ReportApi
    → PostgresPhysicalRestore
    → Labels
    → RunOutcome × Option String
    → CanopyIds
    → VerificationArgs
build_args api restore labels (outcome, error) ids =
    let intent = unwrap_or (label "pgro.bes.au/intent" labels) "" in
    record {
      ids = ids;
      migration = migration_for api.parse_uuid intent restore;
      reporting_schema = reporting_schema_for api.parse_uuid intent restore;
      run_id = and_then restore.run_id api.parse_uuid;
      type_ = unwrap_or (label "pgro.bes.au/type" labels) "";
      intent = intent;
      snapshot_id = restore.snapshot;
      outcome = outcome;
      error = error;
      replica_healthy = is_success outcome;
      postgres_version = restore.postgres_version;
    }

abbrev pub built_for :
    ReportApi
    → PostgresPhysicalRestore
    → RunOutcome × Option String
    → Labels × Option CanopyIds
    → Option VerificationArgs
built_for api restore judged (labels, none) = none
built_for api restore judged (labels, some ids) = some (build_args api restore labels judged ids)

-- What is sent, if anything is; a failure to send it is logged.
unfoldable pub report :
    ReportApi
    → PostgresPhysicalReplica
    → PostgresPhysicalRestore
    → RunOutcome
    → Option String
    → Option VerificationArgs
report api replica restore outcome error = elim (is_some replica.canopy_source && api.canopy) [
  | false ↦ none
  | true ↦ built_for api restore (verdict outcome error api.sizes) (identify api replica.labels)
]
