-- ===== src/Scheduling/Decision.antt =====
-- The decisions of src/controllers/replica/scheduling.rs.
use postgres_restore_operato.Prelude.{◌≤◌, ◌<◌, ◌≡◌, true, false, some, arith, ◌↔◌}
use postgres_restore_operato.Types.{Timestamp, PostgresPhysicalReplica}
use postgres_restore_operato.Scheduling.{ScheduleDecision, check_schedule, within_minimum_ttl}

-- Of a replica with a scheduled time: before it nothing is due; once it has come, the restore is
-- skipped within the minimum TTL and triggered outside it.
pub check_schedule_scheduled :
    (replica : PostgresPhysicalReplica) (now next : Timestamp)
    → replica.next_scheduled_restore ≡ some next
    → (check_schedule replica now ≡ ScheduleDecision.not_due ↔ now < next)
      × (check_schedule replica now ≡ ScheduleDecision.skipped_by_ttl
          ↔ (next ≤ now) × (within_minimum_ttl replica now ≡ true))
      × (check_schedule replica now ≡ ScheduleDecision.trigger
          ↔ (next ≤ now) × (within_minimum_ttl replica now ≡ false))
unfolding check_schedule within_minimum_ttl
check_schedule_scheduled replica now next h = ground arith
