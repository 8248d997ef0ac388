-- ===== src/Restore/Readiness.antt =====
-- `reconcile_ready` of src/controllers/restore.rs: the version detection, the Deployment, the readiness
-- budget and the ways on from Ready.
use postgres_restore_operato.Prelude.{
  ℕ, ◌-◌, String, Bool, ◌&&◌, Option, none, some, [], ◌∷◌, ltb, ◌==◌, if◌then◌else◌, is_some,
  is_none, unwrap_or, slash_join,
}
use postgres_restore_operato.Types.{
  Timestamp, RestorePhase, PostgresPhysicalReplica, PostgresPhysicalRestore,
}
use postgres_restore_operato.Effects.{
  Message, Kind, RestoreField, Call, M, ◌>>=◌, ◌>>◌, pure, answer, note, try, attempt, cases,
  branch, Action, requeue,
}
use postgres_restore_operato.Jobs.{Job, succeeded_count, failed_count}
use postgres_restore_operato.Scheduling.{deployment_ready_timeout}
use postgres_restore_operato.Reindex.{Verdict, Overdue, past_budget, reindex_verdict}
use postgres_restore_operato.Restore.{RestoreApi, version_detect_job_name}
use postgres_restore_operato.Restore.Failure.{fail_restore}
use postgres_restore_operato.Restore.Handlers.{
  get_replica, apply_restore_deployment, ensure_restore_service,
}

-- `if let Some(v) = version && !v.is_empty()`.
abbrev reported : Option String → Option String
reported none = none
reported (some v) = if v == "" then none else some v

module _ (api : RestoreApi) where
  abbrev fail : PostgresPhysicalRestore → String → String → Message → M Action
  fail restore name namespace error =
      fail_restore api namespace name restore.replica (RestoreField.phase RestorePhase.failed ∷ [])
        error

  version_detected : Option String → PostgresPhysicalRestore → String → String → M Action
  version_detected version restore name namespace =
      cases version
        (fail restore name namespace
          (Message.text "version detection Job succeeded but did not report a postgres version"))
        λ v.
          try api.accepts (Call.patch_restore name (RestoreField.postgres_version v ∷ []))
          >> requeue 1

  check_version_job : Job → PostgresPhysicalRestore → String → String → M Action
  unfolding version_detected
  check_version_job job restore name namespace =
      let detect = version_detect_job_name name in
      branch (ltb 0 (succeeded_count job))
        (attempt api.accepts (Call.delete Kind.job detect)
          >> version_detected (reported (api.termination_message detect "version-detect")) restore
              name namespace)
        (branch (ltb (unwrap_or job.backoff_limit 2) (failed_count job))
          (attempt api.accepts (Call.delete Kind.job detect)
            >> fail restore name namespace
                (Message.text "version detection Job failed after backoff exhausted"))
          (requeue 5))

  -- The postgres version is missing from the status: a Job reads it off the volume.
  unfoldable pub detect_version : PostgresPhysicalRestore → String → String → M Action
  unfolding check_version_job
  detect_version restore name namespace = do
    existing ← answer (api.find_job (version_detect_job_name name))
    cases existing
        (try api.accepts (Call.create Kind.job (version_detect_job_name name)) >> requeue 5)
        λ job. check_version_job job restore name namespace

  needs_migration : PostgresPhysicalRestore → Bool
  needs_migration restore = is_some restore.migrate_to && is_none restore.migration_result

  start_migrating : String → M Action
  start_migrating name = do
    try api.accepts (
        Call.patch_restore name
          (RestoreField.phase RestorePhase.migrating ∷ RestoreField.deployment name ∷ []))
    requeue 1

  unfoldable pub start_switching : PostgresPhysicalRestore → String → String → M Action
  start_switching restore name namespace = do
    try api.accepts (
        Call.patch_restore name
          (RestoreField.phase RestorePhase.switching ∷ RestoreField.deployment name ∷ []))
    note (Call.release_slot (slash_join namespace restore.replica))
    requeue 5

  -- A pod is ready: on to Migrating where a target has not been tried yet, to Switching otherwise.
  unfoldable pub advance : PostgresPhysicalRestore → String → String → M Action
  unfolding needs_migration start_migrating
  advance restore name namespace = do
    note (Call.forget_watch (slash_join namespace name))
    branch (needs_migration restore) (start_migrating name) (start_switching restore name namespace)

  -- The reindex is consulted only where no explicit timeout is set.
  consult : Option ℕ → String → M (Option Verdict)
  consult explicit key =
      let (verdict, ws) = reindex_verdict key api.watches api.reindex_progress api.now in
      cases explicit (note (Call.keep_watches ws) >> pure (some verdict)) (λ timeout. pure none)

  give_up : Option Overdue → PostgresPhysicalRestore → String → String → M Action
  give_up overdue restore name namespace = cases overdue (requeue 10) λ message. do
    note (Call.forget_watch (slash_join namespace name))
    fail restore name namespace (Message.overdue message)

  past_timeout :
      PostgresPhysicalReplica → ℕ → ℕ → PostgresPhysicalRestore → String → String → M Action
  unfolding consult give_up
  past_timeout replica elapsed timeout restore name namespace = do
    verdict ← consult replica.deployment_ready_timeout (slash_join namespace name)
    give_up (past_budget elapsed timeout verdict) restore name namespace

  -- No pod is ready yet.
  unfoldable pub await_readiness :
      Option Timestamp
      → PostgresPhysicalReplica
      → PostgresPhysicalRestore
      → String
      → String
      → M Action
  unfolding past_timeout
  await_readiness restored replica restore name namespace =
      let timeout =
        deployment_ready_timeout api.to_bytes replica.deployment_ready_timeout restore.snapshot_size
          api.deployment_ready_timeout_secs in
      cases restored (requeue 10) λ restored_at.
        let elapsed = api.now - restored_at in
        branch (ltb timeout elapsed) (past_timeout replica elapsed timeout restore name namespace)
          (requeue 10)

  unfoldable pub reconcile_ready : PostgresPhysicalRestore → String → String → M Action
  reconcile_ready restore name namespace =
      branch (is_none restore.postgres_version) (detect_version restore name namespace) do
        replica ← get_replica api restore.replica
        ensure_restore_service api name
        apply_restore_deployment api name
        branch (ltb 0 (unwrap_or (api.ready_replicas name) 0)) (advance restore name namespace)
            (await_readiness restore.restored_at replica restore name namespace)
