-- ===== src/Replica/Reconcile.antt =====
-- `reconcile` of src/controllers/replica.rs: its stages in their order.
use postgres_restore_operato.Prelude.{
  String, ◌&&◌, Option, none, some, List, [], ◌∷◌, find, is_none,
}
use postgres_restore_operato.Types.{ReplicaPhase, PostgresPhysicalReplica, PostgresPhysicalRestore}
use postgres_restore_operato.Effects.{
  Error, err, Call, ReplicaField, M, ◌>>=◌, ◌>>◌, answer, note, when, branch, cases, or_else,
  Action, requeue,
}
use postgres_restore_operato.Replica.{
  ReplicaApi, snapshot_job_name, is_active, is_switching, restore_in_progress, is_suspended, patch,
  update_condition,
}
use postgres_restore_operato.Replica.Credentials.{check_credentials, ensure_objects}
use postgres_restore_operato.Replica.Switchover.{gated_switchover, tear_down}
use postgres_restore_operato.Replica.Sweep.{sweep_stale, sweep_failed, sweep_pods}
use postgres_restore_operato.Replica.Snapshots.{handle_snapshot_job}
use postgres_restore_operato.Replica.Trigger.{decide_restore}

module _ (api : ReplicaApi) where
  unfoldable pub trigger :
      PostgresPhysicalReplica
      → List PostgresPhysicalRestore
      → Option PostgresPhysicalRestore
      → String
      → M Action
  trigger replica restores active namespace = do
    job ← answer (api.find_job (snapshot_job_name replica.name))
    or_else (handle_snapshot_job api replica restores namespace job) do
      when (is_suspended replica)
          (update_condition api "RestoreSchedulingSuspended" "False" "SuspensionRemoved")
      cases (find restore_in_progress restores) (decide_restore api replica active job namespace)
          λ in_progress.
            patch api replica (ReplicaField.phase ReplicaPhase.restoring ∷ []) >> requeue 30

  unfoldable pub maintain :
      PostgresPhysicalReplica
      → List PostgresPhysicalRestore
      → Option PostgresPhysicalRestore
      → String
      → M Action
  maintain replica restores active namespace = do
    sweep_stale api replica restores
    sweep_failed api restores
    sweep_pods api restores
    trigger replica restores active namespace

  unfoldable pub tear_down_or_maintain :
      PostgresPhysicalReplica
      → List PostgresPhysicalRestore
      → Option PostgresPhysicalRestore
      → String
      → M Action
  tear_down_or_maintain replica restores none namespace = maintain replica restores none namespace
  tear_down_or_maintain replica restores (some active) namespace =
      branch (replica.ephemeral && is_none active.deletion_timestamp)
        (tear_down api replica active namespace) (maintain replica restores (some active) namespace)

  unfoldable pub with_restores :
      PostgresPhysicalReplica → List PostgresPhysicalRestore → String → M Action
  with_restores replica restores namespace =
      let active = find is_active restores in
      cases (find is_switching restores) (tear_down_or_maintain replica restores active namespace)
        λ switching. gated_switchover api replica switching active

  unfoldable pub reconcile_in : Option String → PostgresPhysicalReplica → M Action
  reconcile_in none replica = answer (err (Error.missing_namespace replica.name))
  reconcile_in (some namespace) replica = do
    note (Call.count "reconciliations_total")
    or_else (check_credentials api replica.kopia_secret_ref replica.canopy_source) do
      ensure_objects api replica
      restores ← answer api.restores
      with_restores replica restores namespace

  unfoldable pub reconcile_replica : PostgresPhysicalReplica → M Action
  unfolding reconcile_in
  reconcile_replica replica = reconcile_in replica.namespace replica
