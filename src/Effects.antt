-- ===== src/Effects.antt =====
-- What the controllers do to the world, as a list of calls. A handler of the source is an action: the
-- calls that it attempts, in their order, and its result. What the Kubernetes API, the databases and
-- the clock answer are arguments of the handlers; `Err` of the source's `?` ends an action.
pub mod Emits
pub mod Followed
pub mod Opens
use postgres_restore_operato.Prelude.{
  ℕ, String, Bool, true, false, Option, none, some, List, [], ◌∷◌, ◌++◌,
}
use postgres_restore_operato.Types.{
  Quantity, Timestamp, RestorePhase, ReplicaPhase, SchemaMigrationPhase, RedactionPhase,
  MigrationResult, SchemaBuildResult,
}
use postgres_restore_operato.Reindex.{Watches, Overdue}

-- A `tokio_postgres::Error`: the SQLSTATE of a database error, and its rendering in lower case.
pub record PostgresError : Type 0 where
  pub code : Option String
  pub lowercase : String

-- src/error.rs: the errors that the modelled code raises or tells apart.
pub data Error : Type 0 where
  kube : Error
  missing_namespace : String → Error
  invalid_kopia_secret : String → String → Error
  no_application_database : Error
  missing_field : String → Error
  schema_migration : String → Error
  storage_limit_exceeded : Error
  postgres : PostgresError → Error
  redaction : String → Error
  http : Error
  canopy : String → Error
  notification : String → Error

pub data Result {ℓ} (A : Type ℓ) : Type ℓ where
  ok : A → Result A
  err : Error → Result A

-- The reason given for a failure: a fixed text, or the rendering of an overrun budget.
pub data Message : Type 0 where
  text : String → Message
  overdue : Overdue → Message

pub data Kind : Type 0 where
  job pod pvc service restore deployment reset_job migration_job build_job namespace : Kind

-- One field of a merge patch on the status of a restore.
pub data RestoreField : Type 0 where
  phase : RestorePhase → RestoreField
  created_at : Timestamp → RestoreField
  restored_at : Timestamp → RestoreField
  activated_at : Timestamp → RestoreField
  run_id : String → RestoreField
  pvc : String → RestoreField
  deployment : String → RestoreField
  postgres_version : String → RestoreField
  restore_job : String → String → Option Timestamp → RestoreField
  migration_job : String → String → RestoreField
  migration_baseline : String → RestoreField
  migration_result : MigrationResult → RestoreField
  -- The build Job, if one ran, and its result.
  schema_build : Option String → SchemaBuildResult → RestoreField
  schema_build_attempts : ℕ → RestoreField

-- One field of a merge patch on the status of a replica; `none` is the patch's `null`.
pub data ReplicaField : Type 0 where
  phase : ReplicaPhase → ReplicaField
  current_restore : Option String → ReplicaField
  previous_restore : Option String → ReplicaField
  last_restore_completed_at : Timestamp → ReplicaField
  consecutive_restore_failures : ℕ → ReplicaField
  next_scheduled_restore : Option Timestamp → ReplicaField
  schedule_input_hash : String → ReplicaField
  verified_snapshot_id : String → ReplicaField
  latest_available_snapshot : String → ReplicaField
  service_name : String → ReplicaField
  connection_info : ReplicaField
  queue_position : Option ℕ → ReplicaField
  schema_migration_job : Option String → ReplicaField
  schema_migration_phase : Option SchemaMigrationPhase → ReplicaField
  -- In bytes.
  persistent_schema_data_size : ℕ → ReplicaField
  redaction_phase : RedactionPhase → ReplicaField
  redaction_version : Option String → ReplicaField
  redaction_columns_applied : ℕ → ReplicaField
  clear_redaction : ReplicaField

pub data Call : Type 0 where
  patch_restore : String → List RestoreField → Call
  patch_replica : String → List ReplicaField → Call
  -- `update_condition`: type, status and reason.
  condition : String → String → String → Call
  create delete : Kind → String → Call
  apply_deployment : String → Call
  scale : String → ℕ → Call
  resize_pvc : String → Quantity → Call
  set_job_ttl : String → ℕ → Call
  mark_pod_ready : String → Call
  select_service : String → String → Call
  -- The restore queue and the reindex watches in the operator's memory.
  mark_active release_slot : String → Call
  enqueue_slot : String → Call
  forget_watch : String → Call
  keep_watches : Watches → Call
  take_result : String → Call
  -- The results of schema migrations and the schemas that builds posted.
  take_migration take_schema : String → Call
  keep_schema : String → String → Call
  -- SQL run on a restore's database.
  drop_schemas : String → List String → Call
  run_sql : String → String → Call
  mark_outgoing : String → Call
  -- Restore, database, user and schemas.
  grant_schemas : String → String → String → List String → Call
  redact enforce_read_only : String → Call
  -- The version, group and rank that a schema is registered for, and the schema.
  register_schema : String → String → String → String → Call
  -- The build's copy of the pull Secret.
  apply_pull_secret : Call
  -- Canopy's objects, by namespace: its Secret, its replica, and the snapshot that it offers.
  apply_canopy_secret apply_replica : String → Call
  desire_snapshot : String → String → Call
  -- Metrics, Kubernetes events, notifications and canopy's verification report.
  count : String → Call
  event : String → Call
  notify : String → Call
  report : String → Bool → Option Message → Call

abbrev pub Trace : Type 0
Trace = List Call

-- An action: what it attempts and what comes of it.
pub record M (A : Type 0) : Type 0 where
  pub trace : Trace
  pub result : Result A

then_run : {A B : Type 0} → Trace → Result A → (A → M B) → M B
then_run t (ok a) f = record { trace = t ++ (f a).trace; result = (f a).result }
then_run t (err e) f = record { trace = t; result = err e }

infixl 5 ◌>>=◌ ◌>>◌
unfoldable pub ◌>>=◌ : {A B : Type 0} → M A → (A → M B) → M B
unfolding then_run
m >>= f = then_run m.trace m.result f

abbrev pub ◌>>◌ : {A B : Type 0} → M A → M B → M B
m >> k = m >>= λ _. k

unfoldable pub pure : {A : Type 0} → A → M A
pure a = record { trace = []; result = ok a }

-- `match … { Ok(a) => …, Err(e) => … }` on what an action comes to.
caught : {A B : Type 0} → Trace → Result A → (A → M B) → (Error → M B) → M B
caught t (ok a) f h = record { trace = t ++ (f a).trace; result = (f a).result }
caught t (err e) f h = record { trace = t ++ (h e).trace; result = (h e).result }

unfoldable pub catch : {A B : Type 0} → M A → (A → M B) → (Error → M B) → M B
unfolding caught
catch m f h = caught m.trace m.result f h

-- What the API answers a read.
unfoldable pub answer : {A : Type 0} → Result A → M A
answer r = record { trace = []; result = r }

-- A call that cannot fail: a change in the operator's own memory.
unfoldable pub note : Call → M (Unit {0})
note c = record { trace = c ∷ []; result = ok tt }

unfoldable pub outcome : Bool → Result (Unit {0})
outcome true = ok tt
outcome false = err Error.kube

-- A write with `?`: its failure ends the handler. `accepts` says which calls the API accepts.
unfoldable pub try : (Call → Bool) → Call → M (Unit {0})
unfolding outcome
try accepts c = record { trace = c ∷ []; result = outcome (accepts c) }

-- A write whose failure is logged and otherwise ignored; the result says whether it succeeded.
unfoldable pub attempt : (Call → Bool) → Call → M Bool
attempt accepts c = record { trace = c ∷ []; result = ok (accepts c) }

-- `if` without an `else`, and a `match` on an `Option`.
unfoldable pub when : Bool → M (Unit {0}) → M (Unit {0})
unfolding pure
when true m = m
when false m = pure tt

unfoldable pub cases : {A B : Type 0} → Option A → M B → (A → M B) → M B
cases none n s = n
cases (some a) n s = s a

unfoldable pub branch : {A : Type 0} → Bool → M A → M A → M A
branch true m k = m
branch false m k = k

-- `for`, over a list.
unfoldable pub for_each : {A : Type 0} → (A → M (Unit {0})) → List A → M (Unit {0})
unfolding pure
for_each f [] = pure tt
for_each f (x ∷ xs) = let rest = for_each f xs in f x >> rest

-- A stage of a handler that may return early, and what follows it.
unfoldable pub or_else : {A : Type 0} → M (Option A) → M A → M A
unfolding pure
or_else m rest = m >>= λ early. cases early rest pure

-- `Api::get`, which fails on an object that is not there, by `Api::get_opt`.
abbrev pub found : {A : Type 0} → Result (Option A) → Result A
found (ok none) = err Error.kube
found (ok (some a)) = ok a
found (err e) = err e

-- `if let Ok(a) = …`.
unfoldable pub if_ok : {A : Type 0} → Result A → (A → M (Unit {0})) → M (Unit {0})
unfolding pure
if_ok (ok a) f = f a
if_ok (err e) f = pure tt

-- `Action::requeue`, in seconds.
pub record Action : Type 0 where
  pub requeue : ℕ

unfoldable pub requeue : ℕ → M Action
unfolding pure
requeue secs = pure (record { requeue = secs })
