-- ===== src/Scheduling.antt =====
-- When a replica restores again: src/controllers/replica/scheduling.rs. Times and durations are in
-- nanoseconds. The cron parser and the random jitter are third-party code: what they compute stands as
-- an argument where it is used.
pub mod Backoff
pub mod Decision
use postgres_restore_operato.Prelude.{
  ℕ, zero, suc, ◌+◌, ◌-◌, ◌*◌, ◌/◌, ◌^◌, min, max, Bool, true, false, Option, none, some, ltb,
  if◌then◌else◌, unwrap_or,
}
use postgres_restore_operato.Types.{Quantity, Timestamp, PostgresPhysicalReplica}

pub data ScheduleDecision : Type 0 where
  not_due trigger skipped_by_ttl : ScheduleDecision

abbrev pub secs : ℕ → ℕ
secs n = n * 1000000000

abbrev pub base_secs : ℕ
base_secs = 60

abbrev pub min_secs : ℕ
min_secs = 120

abbrev pub max_secs : ℕ
max_secs = 3600

-- `u64::saturating_mul`, and `clamp` on u64.
abbrev pub saturating_mul : ℕ → ℕ → ℕ
saturating_mul a b = min (a * b) (2 ^ 64 - 1)

abbrev pub clamp : ℕ → ℕ → ℕ → ℕ
clamp x lo hi = max lo (min x hi)

unfoldable pub backoff_secs : ℕ → ℕ
backoff_secs failures = clamp (saturating_mul base_secs (2 ^ min failures 20)) min_secs max_secs

unfoldable pub failure_backoff_delay : ℕ → Option ℕ
failure_backoff_delay consecutive_failures = elim consecutive_failures [
  | zero ↦ none
  | suc n ↦ some (secs (backoff_secs (suc n)))
]

-- The part of the readiness budget that grows with the snapshot: 900 s for each 100 GiB, cut to whole
-- seconds. The source computes it in f64; here it is exact.
abbrev pub extra_secs : ℕ → ℕ
extra_secs bytes = (bytes * 900) / (100 * 2 ^ 30)

-- `to_bytes` is the quantity parser: `none` for a text that it refuses.
unfoldable pub deployment_ready_timeout : (Quantity → Option ℕ) → Option ℕ → Quantity → ℕ → ℕ
deployment_ready_timeout to_bytes (some explicit) size default_secs = secs (explicit / 1000000000)
deployment_ready_timeout to_bytes none size default_secs = elim (to_bytes size) [
  | none ↦ secs default_secs
  | some bytes ↦ max (secs default_secs) (secs (default_secs + extra_secs bytes))
]

abbrev before : Timestamp → Option Timestamp → Bool
before now none = false
before now (some next) = ltb now next

abbrev is_zero : ℕ → Bool
is_zero n = elim n [ zero ↦ true | suc _ ↦ false ]

unfoldable pub backoff_pending : PostgresPhysicalReplica → Timestamp → Bool
backoff_pending replica now =
    if is_zero (unwrap_or replica.consecutive_restore_failures 0)
    then false
    else before now replica.next_scheduled_restore

abbrev within : Timestamp → Option ℕ → Option Timestamp → Bool
within now none completed = false
within now (some ttl) none = false
within now (some ttl) (some completed) = ltb now (completed + ttl)

unfoldable pub within_minimum_ttl : PostgresPhysicalReplica → Timestamp → Bool
within_minimum_ttl replica now = within now replica.minimum_ttl replica.last_restore_completed_at

-- The second half of `check_schedule`: the scheduled time is reached.
due : Option ℕ → Option Timestamp → Timestamp → ScheduleDecision
due (some ttl) (some completed) now =
    if ltb now (completed + ttl) then ScheduleDecision.skipped_by_ttl else ScheduleDecision.trigger
due (some ttl) none now = ScheduleDecision.trigger
due none completed now = ScheduleDecision.trigger

decide : Option Timestamp → Option ℕ → Option Timestamp → Timestamp → ScheduleDecision
unfolding due
decide none ttl completed now = ScheduleDecision.trigger
decide (some next) ttl completed now =
    if ltb now next then ScheduleDecision.not_due else due ttl completed now

unfoldable pub check_schedule : PostgresPhysicalReplica → Timestamp → ScheduleDecision
unfolding decide
check_schedule replica now =
    decide replica.next_scheduled_restore replica.minimum_ttl replica.last_restore_completed_at now

-- `schema_migration_timeout`: a fifth of the interval between two firings of the schedule, `none` where
-- the cron parser gives no interval.
unfoldable pub schema_migration_timeout : Option ℕ → ℕ
schema_migration_timeout none = secs 3600
schema_migration_timeout (some interval) = secs ((interval / 1000000000) / 5)
