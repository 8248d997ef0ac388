-- ===== src/Examples.antt =====
-- Concrete inputs at which the theorems of the queue, the schedule, the Jobs and the reindex watch apply:
-- src/context.rs, src/controllers/replica/scheduling.rs, src/controllers/jobs.rs and
-- src/controllers/restore/reindex_watch.rs.
mod Restores
mod Replicas
mod Outputs
mod Gates
mod Worklist
mod Posts
mod Masks
mod Notices
mod Settings
use postgres_restore_operato.Prelude.{
  ℕ, ◌≤◌, ◌≡◌, refl, max, Bool, true, false, not, Option, none, some, List, [], ◌∷◌, ◌++◌, arith,
  ◌≢◌, ◌↔◌, length, filter, All, if◌then◌else◌, leb, ltb, suc, ◌<◌, ◌+◌, ◌-◌, ◌^◌, ◌==◌, NoSlash,
  String, eq_iff,
}
use mathlib.Core.Option
use postgres_restore_operato.Types.{PostgresPhysicalReplica, Quantity}
use postgres_restore_operato.Queue.{
  ReplicaKey, RestoreQueue, empty, contains, waits, position, can_start, enqueue, mark_active,
  remove, retain_active, try_promote, release_restore_slot,
}
use postgres_restore_operato.Queue.Waiting.{
  Op, IsDistinct, apply_all, apply_all-IsDistinct, position-enqueue, is_first, position-try_promote,
}
use postgres_restore_operato.Queue.Slots.{
  release_restore_slot-capacity, retain_active_lem, try_promote_refuses_itself,
  release_restore_slot_twice,
}
use postgres_restore_operato.Scheduling.{
  ScheduleDecision, secs, failure_backoff_delay, deployment_ready_timeout, check_schedule,
  within_minimum_ttl,
}
use postgres_restore_operato.Scheduling.Backoff.{
  ladder, failure_backoff_delay_lem, deployment_ready_timeout_floor,
}
use postgres_restore_operato.Scheduling.Decision.{check_schedule_scheduled}
use postgres_restore_operato.Reindex.{
  Watch, Verdict, Observation, verdict, reindex_verdict, ask, observe, settle, get_watch,
  insert_watch, forget_watch, unobserved, record_progress, needs_observation, is_abandoned,
}
use postgres_restore_operato.Reindex.Progress.{Polls, poll_all, reindex_verdict-poll_all}
use postgres_restore_operato.Jobs.{CallbackStore, store, take, sweep}
use postgres_restore_operato.Jobs.Store.{take-store, take-store_other, sweep_lem}

abbrev pub a_replica : PostgresPhysicalReplica
a_replica = record {
  name = "r";
  namespace = some "ns";
  labels = [];
  kopia_secret_ref = some (some "kopia");
  canopy_source = none;
  snapshot_filter = none;
  schedule = "0 0 * * *";
  minimum_ttl = none;
  switchover_grace_period = 300;
  analytics_username = "analytics";
  extra_users = [];
  deployment_ready_timeout = none;
  ephemeral = false;
  persistent_schemas = none;
  pre_migrate_drop_schemas = none;
  pre_migrate_sql = none;
  read_only = true;
  redaction = none;
  current_restore = none;
  previous_restore = none;
  last_restore_completed_at = none;
  next_scheduled_restore = some 100;
  canopy_desired_snapshot_id = none;
  verified_snapshot_id = none;
  conditions = [];
  schedule_input_hash = none;
  schema_migration_phase = none;
  consecutive_restore_failures = some 1;
  redaction_phase = none;
}

differ : (a b : String) → (a == b) ≡ false → a ≢ b
differ a b h e = ground (arith, (eq_iff a b).1 e)

abbrev busy : RestoreQueue
busy = record { active = "ns/a" ∷ []; pending = ("ns/b", 1) ∷ ("ns/c", 2) ∷ [] }

abbrev some_ops : List Op
some_ops =
    Op.ask "ns/a" 1 ∷ Op.start "ns/b" ∷ Op.ask "ns/a" 2 ∷ Op.release "ns/b" 1 ∷ Op.sweep [] ∷ []

apply_all-IsDistinct_example : IsDistinct (apply_all empty some_ops).pending
apply_all-IsDistinct_example = apply_all-IsDistinct some_ops

release_restore_slot-capacity_example :
    length (release_restore_slot busy "ns/a" 1).0.active ≤ max 1 1
release_restore_slot-capacity_example = release_restore_slot-capacity busy "ns/a" 1

try_promote_refuses_itself_example :
    let (q', promoted) = try_promote busy 2 in
    (promoted ≡ some "ns/b")
    × (can_start q' 2 ≡ false)
    × (waits "ns/b" (enqueue q' "ns/b" 3).pending ≡ true)
try_promote_refuses_itself_example =
    try_promote_refuses_itself busy "ns/b" 2 1 3 (("ns/c", 2) ∷ []) refl refl

abbrev doubled : RestoreQueue
doubled = record { active = "ns/a" ∷ "ns/b" ∷ []; pending = ("ns/b", 1) ∷ [] }

release_restore_slot_twice_example :
    let q' = (release_restore_slot doubled "ns/a" 2).0 in
    (ks : List ReplicaKey) × (q'.active ≡ ks ++ "ns/b" ∷ []) × (contains "ns/b" ks ≡ true)
release_restore_slot_twice_example =
    release_restore_slot_twice doubled "ns/b" "ns/a" 2 1 [] (differ "ns/a" "ns/b" refl) refl refl
      (omega arith) refl

abbrev sizes : Quantity → Option ℕ
sizes size = if size == "1Ti" then some (2 ^ 40) else some (2 ^ 30)

abbrev a_watch : Watch
a_watch = record { progress = some "10"; observed_at = 0; changed_at = 0 }

-- The reindex is polled twice, and another restore between them.
abbrev three_polls : Polls
three_polls =
    ("ns/x", secs 60, Observation.failed)
    ∷ ("ns/y", secs 90, Observation.answered (some "3"))
    ∷ ("ns/x", secs 120, Observation.answered (some "10"))
    ∷ []

reindex_verdict-poll_all_example :
    (reindex_verdict "ns/x"
      (poll_all (("ns/x", a_watch) ∷ []) three_polls)
      Observation.failed
      (secs 1900)).0
    ≡ (if ltb (secs 1800) (secs 1900) then Verdict.stalled else Verdict.wait)
unfolding reindex_verdict ask observe settle get_watch insert_watch forget_watch unobserved
    record_progress needs_observation is_abandoned
reindex_verdict-poll_all_example =
    reindex_verdict-poll_all "ns/x" "10" 0 (("ns/x", a_watch) ∷ []) three_polls Observation.failed
      (secs 1900) (a_watch, refl, refl, refl) (tt, (refl, (refl, tt))) tt

abbrev results : CallbackStore
results = ("ns/a", record { stored_at = 1; payload = "old" }) ∷ []
