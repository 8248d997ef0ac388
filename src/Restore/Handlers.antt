-- ===== src/Restore/Handlers.antt =====
-- The handlers of src/controllers/restore.rs for the phases Pending, Restoring, Switching and Active.
use postgres_restore_operato.Prelude.{
  ℕ, String, not, Option, none, some, List, [], ◌∷◌, ltb, ◌==◌, if◌then◌else◌, is_some, is_none,
  unwrap_or, slash_join,
}
use postgres_restore_operato.Types.{
  Quantity, Timestamp, RestorePhase, PostgresPhysicalReplica, PostgresPhysicalRestore,
}
use postgres_restore_operato.Effects.{
  Message, Result, ok, Kind, RestoreField, Call, M, ◌>>=◌, ◌>>◌, pure, answer, note, try, attempt,
  found, when, cases, branch, Action, requeue,
}
use postgres_restore_operato.Jobs.{Job, JobStatusFields, succeeded_count, failed_count}
use postgres_restore_operato.Restore.{
  RestoreApi, restore_job_name, data_pvc_name, kopia_cache_pvc_name,
}
use postgres_restore_operato.Restore.Failure.{fail_restore}

unfoldable pub version_field : Option String → List RestoreField
version_field none = []
version_field (some v) = RestoreField.postgres_version v ∷ []

module _ (api : RestoreApi) where
  -- `replicas.get(name).await?`.
  abbrev pub get_replica : String → M PostgresPhysicalReplica
  get_replica name = answer (found (api.find_replica name))

  -- `apply_restore_deployment`: the builder may fail, then the patch may.
  unfoldable pub apply_restore_deployment : String → M (Unit {0})
  apply_restore_deployment name = do
    answer (api.builds Kind.deployment name)
    try api.accepts (Call.apply_deployment name)

  grow_cache_pvc : String → Option Quantity → Quantity → M (Unit {0})
  grow_cache_pvc pvc requested desired = cases requested (pure tt) λ current.
      when (api.cache_size_needs_grow current desired)
        (attempt api.accepts (Call.resize_pvc pvc desired) >> pure tt)

  unfoldable pub ensure_kopia_cache_pvc : String → Quantity → M (Unit {0})
  unfolding grow_cache_pvc
  ensure_kopia_cache_pvc replica_name snapshot_size = do
    existing ← answer (api.find_pvc (kopia_cache_pvc_name replica_name))
    cases existing
        (get_replica replica_name
          >> try api.accepts (Call.create Kind.pvc (kopia_cache_pvc_name replica_name)))
        λ current.
          grow_cache_pvc (kopia_cache_pvc_name replica_name) current
            (api.cache_pvc_size snapshot_size)

  unfoldable pub delete_previous : String → List Job → M (Unit {0})
  delete_previous current_restore_name [] = pure tt
  delete_previous current_restore_name (job ∷ jobs) =
      let rest = delete_previous current_restore_name jobs in
      branch (unwrap_or job.restore_label "" == current_restore_name) rest
        (attempt api.accepts (Call.delete Kind.job (unwrap_or job.name "")) >> rest)

  unfoldable pub cleanup_previous_jobs : String → String → M (Unit {0})
  unfolding delete_previous
  cleanup_previous_jobs replica_name current_restore_name = do
    jobs ← answer (api.list_jobs replica_name)
    delete_previous current_restore_name jobs

  unfoldable pub ensure_data_pvc : String → String → M (Unit {0})
  ensure_data_pvc name replica_name = do
    existing ← answer (api.find_pvc (data_pvc_name name))
    when (is_none existing) do
      get_replica replica_name
      answer (api.builds Kind.pvc name)
      try api.accepts (Call.create Kind.pvc (data_pvc_name name))

  unfoldable pub reconcile_pending : PostgresPhysicalRestore → String → String → M Action
  reconcile_pending restore name namespace = do
    when (is_none restore.created_at) (
        try api.accepts (
          Call.patch_restore name
            (RestoreField.created_at api.now ∷ RestoreField.phase RestorePhase.pending ∷ [])))
    cleanup_previous_jobs restore.replica name
    ensure_data_pvc name restore.replica
    ensure_kopia_cache_pvc restore.replica restore.snapshot_size
    try api.accepts (
        Call.patch_restore name
          (RestoreField.phase RestorePhase.restoring ∷ RestoreField.pvc (data_pvc_name name) ∷ []))
    note (Call.mark_active (slash_join namespace restore.replica))
    note (Call.count "restores_started_total")
    requeue 5

  -- The run id is minted once, and recorded before the Job is created.
  mint_run_id : Option String → String → M (Unit {0})
  mint_run_id run_id name =
      cases run_id
        (try api.accepts (Call.patch_restore name (RestoreField.run_id api.minted_run_id ∷ [])))
        λ existing. pure tt

  create_restore_job : PostgresPhysicalRestore → String → M Job
  unfolding mint_run_id
  create_restore_job restore name = do
    replica ← get_replica restore.replica
    when (is_some replica.canopy_source) (mint_run_id restore.run_id name)
    answer (api.builds Kind.job (restore_job_name name))
    try api.accepts (Call.create Kind.job (restore_job_name name))
    pure (api.created_job (restore_job_name name))

  unfoldable pub ensure_restore_job : PostgresPhysicalRestore → String → M Job
  unfolding create_restore_job
  ensure_restore_job restore name = do
    existing ← answer (api.find_job (restore_job_name name))
    cases existing (create_restore_job restore name) (λ job. pure job)

  abbrev completion : Option JobStatusFields → Timestamp
  completion none = api.now
  completion (some s) = unwrap_or s.completion_time api.now

  restore_succeeded : String → Job → M Action
  restore_succeeded name job = do
    try api.accepts (
        Call.patch_restore name (
          RestoreField.phase RestorePhase.ready
          ∷ RestoreField.restored_at api.now
          ∷ RestoreField.restore_job (restore_job_name name) "Succeeded"
              (some (completion job.status))
          ∷ version_field (api.termination_message (restore_job_name name) "restore")))
    attempt api.accepts (Call.delete Kind.job (restore_job_name name))
    note (Call.count "restores_completed_total")
    requeue 5

  -- How long the pods of a failed restore Job are kept, by the failures before this one.
  abbrev pub failed_job_ttl_secs : Result (Option PostgresPhysicalReplica) → ℕ
  failed_job_ttl_secs (ok (some replica)) =
      if ltb 0 (unwrap_or replica.consecutive_restore_failures 0) then 600 else 86400
  failed_job_ttl_secs _ = 86400

  restore_failed : PostgresPhysicalRestore → String → String → M Action
  restore_failed restore name namespace = do
    attempt api.accepts (
        Call.set_job_ttl (restore_job_name name)
          (failed_job_ttl_secs (api.find_replica restore.replica)))
    fail_restore api namespace name restore.replica
        (RestoreField.phase RestorePhase.failed
          ∷ RestoreField.restore_job (restore_job_name name) "Failed" none
          ∷ [])
        (Message.text "kopia restore Job failed after backoff exhausted")

  restore_running : String → M Action
  restore_running name = do
    try api.accepts (
        Call.patch_restore name
          (RestoreField.restore_job (restore_job_name name) "Running" none ∷ []))
    requeue 15

  unfoldable pub reconcile_restoring : PostgresPhysicalRestore → String → String → M Action
  unfolding restore_succeeded restore_failed restore_running
  reconcile_restoring restore name namespace = do
    job ← ensure_restore_job restore name
    branch (ltb 0 (succeeded_count job)) (restore_succeeded name job) (
        branch (ltb (unwrap_or job.backoff_limit 3) (failed_count job))
          (restore_failed restore name namespace) (restore_running name))

  -- `ensure_restore_service`.
  unfoldable pub ensure_restore_service : String → M (Unit {0})
  ensure_restore_service name = do
    exists ← answer (api.find_service name)
    when (not exists) (try api.accepts (Call.create Kind.service name))

  unfoldable pub reconcile_switching : PostgresPhysicalRestore → String → M Action
  reconcile_switching restore name = do
    replica ← answer (api.find_replica restore.replica)
    cases replica (requeue 30)
        λ r. do when (is_some restore.postgres_version) (apply_restore_deployment name); requeue 10

  unfoldable pub reconcile_active : PostgresPhysicalRestore → String → M Action
  reconcile_active restore name = do
    replica ← answer (api.find_replica restore.replica)
    cases replica (requeue 300) λ r. do
      when (is_some restore.postgres_version) (apply_restore_deployment name)
      try api.accepts (Call.mark_pod_ready name)
      requeue 300
