-- ===== src/Restore/Failure.antt =====
-- `fail_restore` of src/controllers/restore.rs: what every way to fail a restore does.
use postgres_restore_operato.Prelude.{
  ℕ, ◌+◌, ◌%◌, ◌^◌, String, false, some, List, [], ◌∷◌, unwrap_or, slash_join,
}
use postgres_restore_operato.Types.{Timestamp, PostgresPhysicalReplica}
use postgres_restore_operato.Effects.{
  Message, RestoreField, ReplicaField, Call, M, ◌>>◌, pure, note, try, attempt, found, if_ok,
  Action, requeue,
}
use postgres_restore_operato.Scheduling.{failure_backoff_delay}
use postgres_restore_operato.Restore.{RestoreApi}
use mathlib.Core.Option

-- `consecutive_restore_failures` is a u32.
abbrev pub next_failure_count : PostgresPhysicalReplica → ℕ
next_failure_count replica = (unwrap_or replica.consecutive_restore_failures 0 + 1) % 2 ^ 32

-- The patch that counts the failure and puts the next restore off by the backoff.
abbrev pub retry_patch : Timestamp → ℕ → List ReplicaField
retry_patch now count =
    ReplicaField.consecutive_restore_failures count
    ∷ ReplicaField.next_scheduled_restore (Option.map (λ d. now + d) (failure_backoff_delay count))
    ∷ []

module _ (api : RestoreApi) where
  unfoldable pub schedule_retry : String → M (Unit {0})
  schedule_retry replica_name = if_ok (found (api.find_replica replica_name)) λ replica.
      attempt api.accepts
        (Call.patch_replica replica_name (retry_patch api.now (next_failure_count replica)))
      >> pure tt

  -- The report goes out only if both objects can still be read.
  unfoldable pub report_failure : String → String → Message → M (Unit {0})
  report_failure name replica_name error = if_ok (found (api.reread_restore name)) λ restore.
      if_ok (found (api.find_replica replica_name))
        λ replica. note (Call.report name false (some error))

  unfoldable pub fail_restore : String → String → String → List RestoreField → Message → M Action
  unfolding schedule_retry report_failure
  fail_restore namespace name replica_name status_patch error = do
    try api.accepts (Call.patch_restore name status_patch)
    note (Call.release_slot (slash_join namespace replica_name))
    schedule_retry replica_name
    note (Call.count "restores_failed_total")
    attempt api.accepts (Call.event "RestoreFailed")
    report_failure name replica_name error
    requeue 300
