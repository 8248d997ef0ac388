-- ===== src/Replica.antt =====
-- The controller of a `PostgresPhysicalReplica`: src/controllers/replica.rs. `ReplicaApi` holds what one
-- reconcile reads of the cluster, of the clock and of the operator's memory, what third-party crates
-- compute, and what other files that are not modelled answer.
pub mod Credentials
pub mod Switchover
pub mod Sweep
pub mod Snapshots
pub mod Trigger
pub mod Migration
pub mod Redaction
pub mod Users
pub mod Roles
pub mod Grants
pub mod Build
pub mod Reconcile
pub mod Allowed
pub mod Gates
pub mod Steps
pub mod Passing
pub mod Safety
pub mod Schedule
use Prim.Native.String
use postgres_restore_operato.Prelude.{
  ℕ, String, Bool, true, false, not, ◌&&◌, ◌||◌, Option, none, some, List, [], ◌∷◌, any, ◌==◌,
  is_some, is_none, find,
}
use postgres_restore_operato.Types.{
  Quantity, Timestamp, RestorePhase, ReplicaPhase, SchemaMigrationPhase, RedactionPhase, is_settled,
  redaction_is_settled, Condition, PostgresPhysicalReplica, PostgresPhysicalRestore,
}
use postgres_restore_operato.Effects.{
  Error, Result, Kind, Call, ReplicaField, M, try, answer, ◌>>=◌, ◌>>◌,
}
use postgres_restore_operato.Jobs.{Job}
use postgres_restore_operato.Kopia.{Snapshot}
use postgres_restore_operato.Queue.{RestoreQueue}

-- A Secret: not found, found and refused by `validate_kopia_secret`, or accepted by it.
pub data Secret : Type 0 where
  not_found invalid valid : Secret

pub record Pod : Type 0 where
  pub name : Option String
  pub has_owner : Bool
  pub restore_label : Option String

-- What the PostgreSQL of a restore, named first, answers: src/postgres.rs.
pub record Databases : Type 0 where
  -- The Secret of the analytics user, with its `username` and `password`.
  pub credentials : Result (Unit {0})
  pub discover : String → Result String
  pub connects : String → String → Result (Unit {0})
  pub existing_schemas : String → String → List String → Result (List String)
  pub database_size : String → String → Result ℕ
  pub is_superuser : String → Result Bool
  pub connectable_databases : String → Result (List String)
  pub simple_query : String → String → String → Result (List (Option String))

-- What `apply` of src/controllers/replica/redaction/apply.rs attempted, and how much of it failed.
pub record Outcome : Type 0 where
  pub columns_attempted : ℕ
  pub columns_failed : ℕ
  pub tables_attempted : ℕ
  pub tables_failed : ℕ

-- An HTTP answer: its status and its text, if that can be read.
pub record Response : Type 0 where
  pub status : ℕ
  pub text : Result String

-- The redaction manifests, and what applying one comes to.
pub record Manifests : Type 0 where
  pub send : String → Result Response
  -- `str::replace` of `{version}`.
  pub replace_version : String → String → String
  pub base_version : String → Option String
  -- A manifest is its text, which `parse_manifest` accepts or refuses; what it does to a restore's database
  -- is what `apply` comes to.
  pub parse_manifest : String → Result String
  pub apply : String → String → Result Outcome

-- What a schema build reads: the schema and the log that it left, and canopy's answer.
pub record Building : Type 0 where
  pub parse_uuid : String → Option String
  pub parse_bytes : String → Option ℕ
  pub pull_secret : Option (Result (Unit {0}))
  pub taken_schema : Option String
  -- The length of a text in bytes.
  pub byte_length : String → ℕ
  -- The artifact's id, where canopy gives one.
  pub canopy : Option (String → Result (Option String))
  -- The build container's log, the values that it must not carry into a result, and the end of a log
  -- without them: `log_tail` of `redact`.
  pub log : Option String
  pub secrets : Option (List String)
  pub masked_tail : String → List String → String

pub record ReplicaApi : Type 0 where
  pub now : Timestamp
  pub accepts : Call → Bool
  pub find_secret : String → Secret
  -- `ensure_credentials_secret`, `ensure_extra_user_secrets`, `ensure_service` and the connection info.
  pub ensures : String → Result (Unit {0})
  pub restores : Result (List PostgresPhysicalRestore)
  -- What the steps that gate a switchover read.
  pub databases : Databases
  pub trim : String → String
  pub pod_phases : String → Result (List (Option String))
  pub taken_migration : Option String
  pub snapshot_bytes : Quantity → Option ℕ
  pub cron_interval : Option ℕ
  pub manifests : Manifests
  -- `to_string` of an error.
  pub rendered : Error → String
  pub building : Building
  pub pods_of_restore : String → Result (List (Option String))
  pub pods_of_replica : Result (List Pod)
  pub find_job : String → Result (Option Job)
  pub taken_result : Option String
  pub from_str : String → Result (List Snapshot)
  pub glob_matches : String → String → Bool
  pub restores_now : Result (List PostgresPhysicalRestore)
  pub storage_size : ℕ → Result Quantity
  pub new_restore_name : String
  pub next_scheduled : Option Timestamp
  pub input_hash : String
  pub queue : RestoreQueue
  pub max_concurrent_restores : ℕ
  pub builds : Kind → String → Result (Unit {0})

abbrev pub snapshot_job_name : String → String
snapshot_job_name name = String.◌++◌ name "-snapshot-list"

abbrev pub in_phase : (RestorePhase → Bool) → Option RestorePhase → Bool
in_phase p none = false
in_phase p (some phase) = p phase

abbrev is_active_phase : RestorePhase → Bool
is_active_phase RestorePhase.active = true
is_active_phase _ = false

abbrev is_switching_phase : RestorePhase → Bool
is_switching_phase RestorePhase.switching = true
is_switching_phase _ = false

abbrev is_failed_phase : RestorePhase → Bool
is_failed_phase RestorePhase.failed = true
is_failed_phase _ = false

abbrev is_working_phase : RestorePhase → Bool
is_working_phase RestorePhase.pending = true
is_working_phase RestorePhase.restoring = true
is_working_phase RestorePhase.migrating = true
is_working_phase RestorePhase.ready = true
is_working_phase _ = false

abbrev pub is_active : PostgresPhysicalRestore → Bool
is_active r = in_phase is_active_phase r.phase

abbrev pub is_switching : PostgresPhysicalRestore → Bool
is_switching r = in_phase is_switching_phase r.phase

abbrev pub is_failed : PostgresPhysicalRestore → Bool
is_failed r = in_phase is_failed_phase r.phase

unfoldable pub restore_in_progress : PostgresPhysicalRestore → Bool
restore_in_progress r = in_phase is_working_phase r.phase

unfoldable pub no_successful_restore : PostgresPhysicalReplica → Bool
no_successful_restore replica =
    is_none replica.last_restore_completed_at && is_none replica.verified_snapshot_id

abbrev pub is_text : Option String → String → Bool
is_text none t = false
is_text (some s) t = s == t

unfoldable pub snapshot_already_covered :
    String → Option String → List PostgresPhysicalRestore → Bool
snapshot_already_covered snapshot_id verified_snapshot_id restores =
    is_text verified_snapshot_id snapshot_id
    || any (λ r. r.snapshot == snapshot_id && not (is_failed r)) restores

abbrev pub none_or : {A : Type 0} → (A → Bool) → Option A → Bool
none_or p none = true
none_or p (some a) = p a

unfoldable pub persistent_schemas_migration_settled : PostgresPhysicalReplica → Bool
persistent_schemas_migration_settled replica =
    is_none replica.persistent_schemas || none_or is_settled replica.schema_migration_phase

abbrev pub redaction_settled : PostgresPhysicalReplica → Bool
redaction_settled replica = none_or redaction_is_settled replica.redaction_phase

-- The condition that a suspended replica of an earlier release may still have.
abbrev condition_is_true : Option Condition → Bool
condition_is_true none = false
condition_is_true (some c) = c.status == "True"

unfoldable pub is_suspended : PostgresPhysicalReplica → Bool
is_suspended replica =
    condition_is_true (find (λ c. c.type_ == "RestoreSchedulingSuspended") replica.conditions)

module _ (api : ReplicaApi) where
  abbrev pub patch : PostgresPhysicalReplica → List ReplicaField → M (Unit {0})
  patch replica fields = try api.accepts (Call.patch_replica replica.name fields)

  abbrev pub update_condition : String → String → String → M (Unit {0})
  update_condition type_ status reason = try api.accepts (Call.condition type_ status reason)
