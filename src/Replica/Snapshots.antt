-- ===== src/Replica/Snapshots.antt =====
-- The snapshot list of `reconcile` of src/controllers/replica.rs, and `create_restore_for_snapshot` of
-- src/controllers/replica/resources.rs.
use postgres_restore_operato.Prelude.{
  ℕ, ◌-◌, String, Bool, true, false, not, Option, none, some, List, [], ◌∷◌, ◌==◌, find, filter,
  length, leb, ltb, slash_join,
}
use postgres_restore_operato.Types.{Timestamp, PostgresPhysicalReplica, PostgresPhysicalRestore}
use postgres_restore_operato.Scheduling.{secs}
use postgres_restore_operato.Effects.{
  Result, ok, err, Kind, Call, ReplicaField, M, ◌>>=◌, ◌>>◌, pure, answer, try, attempt, note, when,
  branch, cases, Action,
}
use postgres_restore_operato.Jobs.{Job, JobStatus, JobStatusFields, classify_job}
use postgres_restore_operato.Kopia.{
  Snapshot, total_size_bytes, filter_snapshots, latest_snapshot, parse_snapshot_list_output,
}
use postgres_restore_operato.Replica.{
  ReplicaApi, snapshot_job_name, is_failed, snapshot_already_covered, patch, update_condition,
}

abbrev pub max_restores_per_replica : ℕ
max_restores_per_replica = 3

-- The snapshot that canopy asks for, or the latest one that the filter lets through.
find_desired : Option String → List Snapshot → Option Snapshot
find_desired none snapshots = none
find_desired (some id) snapshots = find (λ s. s.id == id) snapshots

completed_before : Timestamp → Option JobStatusFields → Bool
completed_before now none = false
completed_before now (some s) = elim s.completion_time [
  | none ↦ false
  | some at ↦ ltb (secs 60) (now - at)
]

module _ (api : ReplicaApi) where
  unfoldable pub pick : PostgresPhysicalReplica → List Snapshot → Option Snapshot
  unfolding find_desired
  pick replica snapshots = elim replica.canopy_source [
    | some _ ↦ find_desired replica.canopy_desired_snapshot_id snapshots
    | none ↦ latest_snapshot (filter_snapshots api.glob_matches snapshots replica.snapshot_filter)
  ]

  -- No more than three restores that have not failed exist for a replica.
  unfoldable pub create_restore_for_snapshot : PostgresPhysicalReplica → Snapshot → M Bool
  create_restore_for_snapshot replica snap = do
    existing ← answer api.restores_now
    branch (leb max_restores_per_replica (length (filter (λ r. not (is_failed r)) existing)))
        (update_condition api "RestoreCreationBlocked" "True" "TooManyRestores" >> pure false)
        do
          answer (api.storage_size (total_size_bytes snap))
          try api.accepts (Call.create Kind.restore api.new_restore_name)
          update_condition api "RestoreCreationBlocked" "False" "Healthy"
          pure true

  unfoldable pub start_restore : PostgresPhysicalReplica → Snapshot → M (Unit {0})
  start_restore replica snap = do
    created ← create_restore_for_snapshot replica snap
    branch created
        (note (Call.count "restores_started_total")
          >> attempt api.accepts (Call.event "RestoreStarted")
          >> pure tt)
        (attempt api.accepts (Call.event "RestoreCreationBlocked") >> pure tt)

  unfoldable pub offer :
      PostgresPhysicalReplica → List PostgresPhysicalRestore → Snapshot → M (Unit {0})
  unfolding start_restore
  offer replica restores snap = do
    patch api replica (ReplicaField.latest_available_snapshot snap.id ∷ [])
    update_condition api "SnapshotAvailable" "True" "SnapshotFound"
    when (not (snapshot_already_covered snap.id replica.verified_snapshot_id restores))
        (start_restore replica snap)

  unfoldable pub parsed :
      PostgresPhysicalReplica → List PostgresPhysicalRestore → Result (List Snapshot) → M (Unit {0})
  unfolding offer
  parsed replica restores (err e) = update_condition api "SnapshotAvailable" "False" "ParseError"
  parsed replica restores (ok snapshots) =
      cases (pick replica snapshots)
        (update_condition api "SnapshotAvailable" "False" (elim replica.canopy_source [
          | some _ ↦ "CanopyDesiredSnapshotMissing"
          | none ↦ "NoMatchingSnapshots"
        ]))
        (offer replica restores)

  unfoldable pub no_result : Job → String → M (Option Action)
  unfolding completed_before
  no_result job name =
      branch (completed_before api.now job.status)
        (attempt api.accepts (Call.delete Kind.job (snapshot_job_name name))
          >> pure (some (record { requeue = 10 })))
        (pure (some (record { requeue = 5 })))

  unfoldable pub listed :
      PostgresPhysicalReplica → List PostgresPhysicalRestore → String → Job → M (Option Action)
  unfolding parsed no_result
  listed replica restores namespace job = do
    note (Call.take_result (slash_join namespace replica.name))
    cases api.taken_result (no_result job replica.name) λ raw. do
      attempt api.accepts (Call.delete Kind.job (snapshot_job_name replica.name))
      parsed replica restores (parse_snapshot_list_output api.from_str raw)
      pure none

  unfoldable pub by_status :
      JobStatus
      → PostgresPhysicalReplica
      → List PostgresPhysicalRestore
      → String
      → Job
      → M (Option Action)
  unfolding listed
  by_status JobStatus.succeeded replica restores namespace job =
      listed replica restores namespace job
  by_status JobStatus.failed replica restores namespace job = do
    attempt api.accepts (Call.set_job_ttl (snapshot_job_name replica.name) 86400)
    update_condition api "SnapshotAvailable" "False" "JobFailed"
    pure none
  by_status JobStatus.active replica restores namespace job = pure (some (record { requeue = 10 }))

  unfoldable pub handle_snapshot_job :
      PostgresPhysicalReplica
      → List PostgresPhysicalRestore
      → String
      → Option Job
      → M (Option Action)
  unfolding by_status
  handle_snapshot_job replica restores namespace job =
      cases job (pure none) λ j. by_status (classify_job j) replica restores namespace j
