-- ===== src/Replica/Sweep.antt =====
-- The sweeps of `reconcile` of src/controllers/replica.rs: stale Active restores, failed restores and orphaned
-- pods.
use postgres_restore_operato.Prelude.{
  ℕ, ◌-◌, String, Bool, true, false, not, ◌&&◌, Option, none, some, List, [], ◌∷◌, ◌==◌, any,
  filter, is_empty, unwrap_or, ltb,
}
use postgres_restore_operato.Types.{Timestamp, PostgresPhysicalReplica, PostgresPhysicalRestore}
use postgres_restore_operato.Scheduling.{secs}
use postgres_restore_operato.Effects.{
  Kind, Call, ReplicaField, M, ◌>>=◌, ◌>>◌, pure, attempt, when, cases, if_ok, for_each,
}
use postgres_restore_operato.Replica.{
  ReplicaApi, Pod, is_active, is_failed, patch, persistent_schemas_migration_settled,
  redaction_settled,
}

-- More than `age` ago.
abbrev older : Timestamp → ℕ → Option Timestamp → Bool
older now age none = false
older now age (some at) = ltb age (now - at)

unfoldable pub sweep_is_due :
    PostgresPhysicalReplica → String → List PostgresPhysicalRestore → Timestamp → Bool
sweep_is_due replica current restores now =
    persistent_schemas_migration_settled replica
    && redaction_settled replica
    && any (λ r. r.name == current && is_active r) restores
    && older now replica.switchover_grace_period replica.last_restore_completed_at

unfoldable pub is_stale : String → PostgresPhysicalRestore → Bool
is_stale current r = is_active r && not (r.name == current)

module _ (api : ReplicaApi) where
  -- Whether every deletion went through.
  unfoldable pub delete_restores : List PostgresPhysicalRestore → M Bool
  delete_restores [] = pure true
  delete_restores (r ∷ rs) =
      let rest = delete_restores rs in
      attempt api.accepts (Call.delete Kind.restore r.name) >>= λ deleted.
      rest >>= λ others. pure (deleted && others)

  abbrev clear_switchover : PostgresPhysicalReplica → M (Unit {0})
  clear_switchover replica = patch api replica (
      ReplicaField.previous_restore none
      ∷ ReplicaField.schema_migration_job none
      ∷ ReplicaField.schema_migration_phase none
      ∷ ReplicaField.clear_redaction
      ∷ [])

  unfoldable pub sweep_stale : PostgresPhysicalReplica → List PostgresPhysicalRestore → M (Unit {0})
  sweep_stale replica restores = cases replica.current_restore (pure tt) λ current.
      let stale = filter (is_stale current) restores in
      when (sweep_is_due replica current restores api.now && not (is_empty stale))
        do all_deleted ← delete_restores stale; when all_deleted (clear_switchover replica)

  unfoldable pub delete_pod : Option String → M (Unit {0})
  delete_pod name = attempt api.accepts (Call.delete Kind.pod (unwrap_or name "")) >> pure tt

  -- A failed restore older than five minutes goes, its pods before it.
  unfoldable pub clean_failed : PostgresPhysicalRestore → M (Unit {0})
  unfolding delete_pod
  clean_failed failed = when (older api.now (secs 300) failed.created_at) do
    if_ok (api.pods_of_restore failed.name) (for_each delete_pod)
    attempt api.accepts (Call.delete Kind.restore failed.name)
    pure tt

  unfoldable pub sweep_failed : List PostgresPhysicalRestore → M (Unit {0})
  sweep_failed restores = for_each clean_failed (filter is_failed restores)

  belongs : List PostgresPhysicalRestore → Option String → Bool
  belongs restores none = false
  belongs restores (some name) = any (λ r. r.name == name) restores

  unfoldable pub is_orphan : List PostgresPhysicalRestore → Pod → Bool
  unfolding belongs
  is_orphan restores pod = not pod.has_owner && not (belongs restores pod.restore_label)

  unfoldable pub sweep_pods : List PostgresPhysicalRestore → M (Unit {0})
  unfolding delete_pod
  sweep_pods restores =
      if_ok api.pods_of_replica
        λ pods. for_each (λ pod. delete_pod pod.name) (filter (is_orphan restores) pods)
