-- ===== src/Replica/Schedule.antt =====
-- When a replica restores: `should_restore` of src/controllers/replica.rs against the failure backoff that
-- `fail_restore` of src/controllers/restore.rs writes.
use postgres_restore_operato.Prelude.{
  ℕ, ◌+◌, ◌<◌, ◌^◌, ◌≡◌, true, ◌&&◌, ◌||◌, Option, some, List, [], ◌∷◌, arith, ltb, is_none,
  is_some, unwrap_or, suc,
}
use postgres_restore_operato.Types.{Timestamp, PostgresPhysicalReplica, PostgresPhysicalRestore}
use postgres_restore_operato.Scheduling.{ScheduleDecision, secs, backoff_pending, check_schedule}
use postgres_restore_operato.Scheduling.Backoff.{ladder, failure_backoff_delay_lem}
use postgres_restore_operato.Effects.{ReplicaField}
use postgres_restore_operato.Restore.Failure.{retry_patch, next_failure_count}
use postgres_restore_operato.Replica.{ReplicaApi}
use postgres_restore_operato.Replica.Trigger.{should_restore, canopy_desired_changed}

-- The two status fields of the schedule, as the API server merges a patch.
abbrev pub merge : List ReplicaField → PostgresPhysicalReplica → PostgresPhysicalReplica
merge [] replica = replica
merge (ReplicaField.consecutive_restore_failures n ∷ fields) replica =
    merge fields (record replica { consecutive_restore_failures = some n })
merge (ReplicaField.next_scheduled_restore at ∷ fields) replica =
    merge fields (record replica { next_scheduled_restore = at })
merge (_ ∷ fields) replica = merge fields replica

check_schedule_pending :
    (replica : PostgresPhysicalReplica) (now : Timestamp)
    → backoff_pending replica now ≡ true
    → check_schedule replica now ≡ ScheduleDecision.not_due
unfolding backoff_pending check_schedule
check_schedule_pending replica now h = ground arith

-- While a failure backoff runs, neither the schedule nor the lack of a successful restore makes a replica
-- restore: only the deletion of its current restore does, or canopy asking for another snapshot, and
-- these two are not held back by the backoff.
pub should_restore_backoff :
    (api : ReplicaApi) (replica : PostgresPhysicalReplica) (active : Option PostgresPhysicalRestore)
    → backoff_pending replica api.now ≡ true
    → should_restore api replica active ≡ (
        (is_none active && is_some replica.current_restore)
        || canopy_desired_changed api replica active)
unfolding should_restore
should_restore_backoff api replica active h =
    ground (arith, h, check_schedule_pending replica api.now h)

pending_after :
    (replica : PostgresPhysicalReplica) (n : ℕ) (failed_at now : Timestamp)
    → backoff_pending (merge (retry_patch failed_at (suc n)) replica) now
      ≡ ltb now (failed_at + secs (ladder (suc n)))
unfolding backoff_pending
pending_after replica n failed_at now = ground (arith, failure_backoff_delay_lem (suc n))

-- The patch that a failed restore writes on its replica starts a backoff that runs for exactly the step of
-- the ladder that its number of failures in a row stands for (below 2 ^ 32 failures).
pub backoff_pending-retry_patch :
    (replica : PostgresPhysicalReplica) (failed_at now : Timestamp)
    → unwrap_or replica.consecutive_restore_failures 0 + 1 < 2 ^ 32
    → let n = next_failure_count replica in
      backoff_pending (merge (retry_patch failed_at n) replica) now
      ≡ ltb now (failed_at + secs (ladder (suc (unwrap_or replica.consecutive_restore_failures 0))))
backoff_pending-retry_patch replica failed_at now h =
    let m = unwrap_or replica.consecutive_restore_failures 0 in
    let exact : next_failure_count replica ≡ suc m = omega arith in
    rw exact (pending_after replica m failed_at now)
