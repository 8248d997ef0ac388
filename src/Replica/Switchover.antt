-- ===== src/Replica/Switchover.antt =====
-- The switchover of src/controllers/replica.rs: the gates, the move of the Service and of the phases, and the
-- teardown of an ephemeral replica's restore.
use postgres_restore_operato.Prelude.{
  String, Bool, true, Option, none, some, [], ◌∷◌, is_some, slash_join,
}
use postgres_restore_operato.Types.{
  RestorePhase, ReplicaPhase, PostgresPhysicalReplica, PostgresPhysicalRestore,
}
use postgres_restore_operato.Effects.{
  Kind, Call, RestoreField, ReplicaField, M, ◌>>=◌, ◌>>◌, pure, try, attempt, note, when, branch,
  cases, or_else, Action, requeue,
}
use postgres_restore_operato.Replica.{ReplicaApi, is_suspended, patch, update_condition}
use postgres_restore_operato.Replica.Redaction.{reconcile_redaction_step}
use postgres_restore_operato.Replica.Migration.{reconcile_schema_migration}
use postgres_restore_operato.Replica.Build.Step.{reconcile_schema_build}
use postgres_restore_operato.Replica.Grants.{reconcile_extra_user_grants}

-- A gate that is not passed yet ends the reconcile, which comes back in 30 s.
unfoldable pub gate : M Bool → M (Option Action)
gate step = step >>= λ passed. branch passed (pure none) (pure (some (record { requeue = 30 })))

module _ (api : ReplicaApi) where
  unfoldable pub clear_suspension : PostgresPhysicalReplica → String → M (Unit {0})
  clear_suspension replica reason =
      when (is_suspended replica) (update_condition api "RestoreSchedulingSuspended" "False" reason)

  unfoldable pub switch_over :
      PostgresPhysicalReplica → PostgresPhysicalRestore → Option PostgresPhysicalRestore → M Action
  unfolding clear_suspension
  switch_over replica switching active = do
    try api.accepts (Call.mark_pod_ready switching.name)
    try api.accepts (Call.select_service replica.name switching.name)
    try api.accepts
        (Call.patch_restore switching.name (RestoreField.phase RestorePhase.active ∷ []))
    try api.accepts (Call.patch_restore switching.name (RestoreField.activated_at api.now ∷ []))
    patch api replica (
        ReplicaField.phase ReplicaPhase.ready
        ∷ ReplicaField.current_restore (some switching.name)
        ∷ ReplicaField.previous_restore replica.current_restore
        ∷ ReplicaField.last_restore_completed_at api.now
        ∷ ReplicaField.consecutive_restore_failures 0
        ∷ [])
    cases active (pure tt)
        (λ outgoing. attempt api.accepts (Call.mark_outgoing outgoing.name) >> pure tt)
    clear_suspension replica "RestoreSucceeded"
    note (Call.count "switchovers_total")
    attempt api.accepts (Call.event "RestoreCompleted")
    note (Call.notify switching.name)
    note (Call.report switching.name true none)
    requeue 10

  unfoldable pub redaction_gate :
      PostgresPhysicalReplica → PostgresPhysicalRestore → M (Option Action)
  redaction_gate replica switching =
      cases replica.redaction (pure none)
        λ spec. gate (reconcile_redaction_step api replica spec switching.name)

  unfoldable pub migration_gate :
      PostgresPhysicalReplica
      → PostgresPhysicalRestore
      → Option PostgresPhysicalRestore
      → M (Option Action)
  migration_gate replica switching active =
      branch (is_some replica.persistent_schemas)
        (gate (reconcile_schema_migration api replica switching active)) (pure none)

  -- The gates in their order, the grants, and then the switchover.
  unfoldable pub gated_switchover :
      PostgresPhysicalReplica → PostgresPhysicalRestore → Option PostgresPhysicalRestore → M Action
  gated_switchover replica switching active = or_else (redaction_gate replica switching) (
      or_else (migration_gate replica switching active) (
        or_else (gate (reconcile_schema_build api replica switching)) (
          reconcile_extra_user_grants api replica switching.name
          >> switch_over replica switching active)))

  -- The marker is written before the restore goes.
  unfoldable pub tear_down : PostgresPhysicalReplica → PostgresPhysicalRestore → String → M Action
  tear_down replica active namespace = do
    patch api replica (
        ReplicaField.verified_snapshot_id active.snapshot
        ∷ ReplicaField.current_restore none
        ∷ ReplicaField.previous_restore none
        ∷ [])
    attempt api.accepts (Call.delete Kind.restore active.name)
    note (Call.release_slot (slash_join namespace replica.name))
    requeue 30
