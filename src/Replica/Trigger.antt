-- ===== src/Replica/Trigger.antt =====
-- Whether a replica restores now: the last stage of `reconcile` of src/controllers/replica.rs.
use postgres_restore_operato.Prelude.{
  String, Bool, true, false, not, ◌&&◌, ◌||◌, Option, none, some, [], ◌∷◌, ◌==◌, is_some, is_none,
  slash_join, if◌then◌else◌,
}
use postgres_restore_operato.Types.{ReplicaPhase, PostgresPhysicalReplica, PostgresPhysicalRestore}
use postgres_restore_operato.Scheduling.{
  ScheduleDecision, backoff_pending, within_minimum_ttl, check_schedule,
}
use postgres_restore_operato.Effects.{
  Kind, Call, ReplicaField, M, ◌>>◌, pure, answer, try, note, when, branch, cases, Action, requeue,
}
use postgres_restore_operato.Jobs.{Job}
use postgres_restore_operato.Queue.{position, enqueue, can_start}
use postgres_restore_operato.Replica.{
  ReplicaApi, snapshot_job_name, no_successful_restore, is_text, patch,
}

abbrev is_trigger : ScheduleDecision → Bool
is_trigger ScheduleDecision.trigger = true
is_trigger _ = false

abbrev is_processed : ScheduleDecision → Bool
is_processed ScheduleDecision.not_due = false
is_processed _ = true

-- The snapshot of the active restore, or the one last verified.
abbrev pub effective_current_snapshot :
    PostgresPhysicalReplica → Option PostgresPhysicalRestore → Option String
effective_current_snapshot replica none = replica.verified_snapshot_id
effective_current_snapshot replica (some active) = some active.snapshot

desired_differs : Option String → Option String → Bool
desired_differs none current = false
desired_differs (some desired) none = true
desired_differs (some desired) (some current) = not (desired == current)

module _ (api : ReplicaApi) where
  unfoldable pub canopy_desired_changed :
      PostgresPhysicalReplica → Option PostgresPhysicalRestore → Bool
  unfolding desired_differs
  canopy_desired_changed replica active =
      is_some replica.canopy_source
      && desired_differs replica.canopy_desired_snapshot_id
          (effective_current_snapshot replica active)
      && not (within_minimum_ttl replica api.now)

  -- No restore is in progress where this is asked.
  unfoldable pub should_restore : PostgresPhysicalReplica → Option PostgresPhysicalRestore → Bool
  should_restore replica active =
      (is_none active && no_successful_restore replica && not (backoff_pending replica api.now))
      || (is_none active && is_some replica.current_restore)
      || canopy_desired_changed replica active
      || is_trigger (check_schedule replica api.now)

  abbrev update_schedule_status : PostgresPhysicalReplica → M (Unit {0})
  update_schedule_status replica = cases api.next_scheduled (pure tt) λ next. patch api replica (
      ReplicaField.next_scheduled_restore (some next)
      ∷ ReplicaField.schedule_input_hash api.input_hash
      ∷ [])

  unfoldable pub wait_for_slot : PostgresPhysicalReplica → String → M Action
  wait_for_slot replica key = do
    note (Call.enqueue_slot key)
    patch api replica
        (ReplicaField.queue_position (position (enqueue api.queue key api.now) key) ∷ [])
    requeue 30

  unfoldable pub list_snapshots : PostgresPhysicalReplica → M Action
  list_snapshots replica = do
    answer (api.builds Kind.job (snapshot_job_name replica.name))
    try api.accepts (Call.create Kind.job (snapshot_job_name replica.name))
    requeue 10

  unfoldable pub settle_status : PostgresPhysicalReplica → Option PostgresPhysicalRestore → M Action
  settle_status replica active = do
    when (is_processed (check_schedule replica api.now)) (update_schedule_status replica)
    patch api replica (
        ReplicaField.phase (if is_some active then ReplicaPhase.ready else ReplicaPhase.pending)
        ∷ [])
    patch api replica (ReplicaField.queue_position (some 0) ∷ [])
    requeue 300

  schedule_changed : PostgresPhysicalReplica → Bool
  schedule_changed replica = not (is_text replica.schedule_input_hash api.input_hash)

  unfoldable pub decide_restore :
      PostgresPhysicalReplica → Option PostgresPhysicalRestore → Option Job → String → M Action
  unfolding schedule_changed
  decide_restore replica active snapshot_job namespace = do
    when (schedule_changed replica || is_none replica.next_scheduled_restore)
        (update_schedule_status replica)
    branch (should_restore replica active && is_none snapshot_job)
        (branch (can_start api.queue api.max_concurrent_restores) (list_snapshots replica)
          (wait_for_slot replica (slash_join namespace replica.name)))
        (settle_status replica active)
