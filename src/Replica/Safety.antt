-- ===== src/Replica/Safety.antt =====
-- What one whole reconcile of src/controllers/replica.rs does, on top of its stages.
use postgres_restore_operato.Prelude.{
  ◌≡◌, refl, String, true, false, Option, none, some, List, [], ◌∷◌, arith, any, find, All,
  find-eq_none, every_lem, unwrap_or, subst, sym, ap,
}
use postgres_restore_operato.Types.{CanopySource, PostgresPhysicalReplica, PostgresPhysicalRestore}
use postgres_restore_operato.Effects.{Result, ok, err}
use postgres_restore_operato.Effects.Emits.{
  Emits, emits, branch-Emits, bind-Emits, attempt-Emits, pure-Emits, branch-Emits_if,
  cases-Emits_if, answer-Emits_if, for_each-Emits, when-Emits, if_ok-Emits, or_else-Emits,
}
use postgres_restore_operato.Jobs.{Job, JobStatus}
use postgres_restore_operato.Kopia.{Snapshot}
use postgres_restore_operato.Replica.{
  Secret, ReplicaApi, is_active, is_switching, is_failed, restore_in_progress,
}
use postgres_restore_operato.Replica.Credentials.{
  check_credentials, ensure_objects, refuse_credentials, accept_credentials, check_secret,
}
use postgres_restore_operato.Replica.Sweep.{
  is_stale, sweep_stale, sweep_failed, sweep_pods, clean_failed, delete_pod,
}
use postgres_restore_operato.Replica.Snapshots.{
  create_restore_for_snapshot, start_restore, offer, parsed, no_result, listed, by_status,
  handle_snapshot_job,
}
use postgres_restore_operato.Replica.Trigger.{
  decide_restore, list_snapshots, wait_for_slot, settle_status,
}
use postgres_restore_operato.Replica.Reconcile.{
  trigger, maintain, tear_down_or_maintain, with_restores, reconcile_in, reconcile_replica,
}
use postgres_restore_operato.Replica.Allowed.{
  Restores, Allowed, May, removable, has_room, named, All-filter-named, tear_down-May,
  delete_restores-May,
}
use postgres_restore_operato.Replica.Gates.{gated_switchover-May}

module _ (api : ReplicaApi) (replica : PostgresPhysicalReplica) (restores : Restores) where
  sweep_stale-May : May api replica restores (sweep_stale api replica restores)
  unfolding sweep_stale
  sweep_stale-May =
      cases-Emits_if replica.current_restore (λ _. search emits)
        λ current known. when-Emits _ (
          bind-Emits _ _
            (delete_restores-May api replica restores _ (
              All-filter-named (is_stale current) (removable replica) restores
                λ r stale. unfold is_stale in ground arith))
            λ all_deleted. search emits)

  delete_pod-May : (name : Option String) → May api replica restores (delete_pod api name)
  unfolding delete_pod
  delete_pod-May name = search emits

  sweep_pods-May : May api replica restores (sweep_pods api restores)
  unfolding sweep_pods
  sweep_pods-May =
      if_ok-Emits _ λ pods. for_each-Emits _ _ (every_lem (λ pod. delete_pod-May pod.name) _)

  clean_failed-May :
      (rs : Restores)
      → All (λ r. named (removable replica) r.name restores ≡ true) rs
      → All (λ r. May api replica restores (clean_failed api r)) rs
  unfolding clean_failed
  clean_failed-May [] h = tt
  clean_failed-May (r ∷ rs) (h, k) = (
    when-Emits _ (
        bind-Emits _ _ (if_ok-Emits _ λ pods. for_each-Emits _ pods (every_lem delete_pod-May pods))
          λ _. bind-Emits _ _ (attempt-Emits _ _ h) λ _. pure-Emits tt),
    clean_failed-May rs k,
  )

  sweep_failed-May : May api replica restores (sweep_failed api restores)
  unfolding sweep_failed
  sweep_failed-May = for_each-Emits _ _ (
      clean_failed-May _
        (All-filter-named is_failed (removable replica) restores λ r failed. ground arith))

  create_restore-May :
      (snap : Snapshot) → May api replica restores (create_restore_for_snapshot api replica snap)
  unfolding create_restore_for_snapshot
  create_restore-May snap = answer-Emits_if api.restores_now _ λ existing read.
      branch-Emits_if _ (λ full. search emits)
        λ room. let fits : has_room api.restores_now ≡ true = rw (read, room) refl in search emits

  parsed-May :
      (read : Result (List Snapshot)) → May api replica restores (parsed api replica restores read)
  unfolding parsed offer start_restore
  parsed-May (err e) = search emits
  parsed-May (ok snapshots) = search (emits, create_restore-May) depth 20

  by_status-May :
      (status : JobStatus) (namespace : String) (job : Job)
      → May api replica restores (by_status api status replica restores namespace job)
  unfolding by_status listed no_result offer start_restore
  by_status-May JobStatus.active namespace job = search emits
  by_status-May JobStatus.failed namespace job = search emits depth 20
  by_status-May JobStatus.succeeded namespace job = search (emits, parsed-May) depth 20

  handle_snapshot_job-May :
      (namespace : String) (job : Option Job)
      → May api replica restores (handle_snapshot_job api replica restores namespace job)
  unfolding handle_snapshot_job
  handle_snapshot_job-May namespace job = search (emits, by_status-May)

  decide_restore-May :
      (active : Option PostgresPhysicalRestore) (job : Option Job) (namespace : String)
      → any restore_in_progress restores ≡ false
      → May api replica restores (decide_restore api replica active job namespace)
  unfolding decide_restore list_snapshots wait_for_slot settle_status
  decide_restore-May active job namespace idle = bind-Emits _ _ (search emits) λ _.
      branch-Emits _
        (branch-Emits_if _ (λ free. search emits depth 20) (λ full. search emits depth 20))
        (search emits depth 20)

  trigger-May :
      (active : Option PostgresPhysicalRestore) (namespace : String)
      → May api replica restores (trigger api replica restores active namespace)
  unfolding trigger
  trigger-May active namespace = bind-Emits _ _ (search emits) λ job.
      or_else-Emits _ _ (handle_snapshot_job-May namespace job) (
        bind-Emits _ _ (search emits) λ _.
          cases-Emits_if (find restore_in_progress restores)
            (λ nothing.
              decide_restore-May active job namespace
                (find-eq_none restore_in_progress restores nothing))
            (λ in_progress _. search emits))

  maintain-May :
      (active : Option PostgresPhysicalRestore) (namespace : String)
      → May api replica restores (maintain api replica restores active namespace)
  unfolding maintain
  maintain-May active namespace =
      search (emits, sweep_stale-May, sweep_failed-May, sweep_pods-May, trigger-May)

  tear_down_or_maintain-May :
      (active : Option PostgresPhysicalRestore) (namespace : String)
      → find is_active restores ≡ active
      → May api replica restores (tear_down_or_maintain api replica restores active namespace)
  unfolding tear_down_or_maintain
  tear_down_or_maintain-May none namespace h = maintain-May none namespace
  tear_down_or_maintain-May (some active) namespace h =
      branch-Emits_if _
        (λ ephemeral.
          tear_down-May api replica restores active namespace h (ground (arith, ephemeral)))
        (λ _. maintain-May (some active) namespace)

  with_restores-May :
      (namespace : String) → May api replica restores (with_restores api replica restores namespace)
  unfolding with_restores
  with_restores-May namespace =
      cases-Emits_if (find is_switching restores)
        (λ _. tear_down_or_maintain-May (find is_active restores) namespace refl)
        (λ switching h. gated_switchover-May api replica restores switching h)

abbrev pub children : Result Restores → Restores
children (ok restores) = restores
children (err e) = []

module _ (api : ReplicaApi) (replica : PostgresPhysicalReplica) where
  check_secret-May :
      (secret : Secret) (restores : Restores) → May api replica restores (check_secret api secret)
  unfolding check_secret refuse_credentials accept_credentials
  check_secret-May Secret.not_found restores = search emits
  check_secret-May Secret.invalid restores = search emits
  check_secret-May Secret.valid restores = search emits

  check_credentials-May :
      (secret : Option (Option String)) (source : Option CanopySource) (restores : Restores)
      → May api replica restores (check_credentials api secret source)
  unfolding check_credentials refuse_credentials accept_credentials
  check_credentials-May (some _) (some _) restores = search emits
  check_credentials-May none none restores = search emits
  check_credentials-May none (some _) restores = search emits
  check_credentials-May (some secret) none restores =
      check_secret-May (api.find_secret (unwrap_or secret "")) restores

  reconcile_in-May :
      (namespace : Option String)
      → May api replica (children api.restores) (reconcile_in api namespace replica)
  unfolding reconcile_in ensure_objects
  reconcile_in-May none = search emits
  reconcile_in-May (some namespace) = bind-Emits _ _ (search emits) λ _.
      or_else-Emits _ _
        (check_credentials-May replica.kopia_secret_ref replica.canopy_source
          (children api.restores))
        (bind-Emits _ _ (search emits depth 20) λ _. answer-Emits_if api.restores _ λ restores read.
          subst (λ rs. May api replica rs (with_restores api replica restores namespace))
            (sym (ap children read)) (with_restores-May api replica restores namespace))

  -- Whatever the cluster answers, one reconcile of a replica deletes only restores that are failed, or
  -- active and not the replica's current restore (of an ephemeral replica: any active one); creates a
  -- restore only while fewer than three that have not failed exist; creates the snapshot list Job
  -- only with a free slot in the restore queue and no restore in progress, and enqueues the replica
  -- only without a free slot; redacts only a restore in phase Switching, of a replica that asks for it; drops
  -- schemas only on a restore in phase Switching whose redaction is done, and creates the schema migration Job
  -- only with such a restore; creates the schema build Job only once its schema migration is done too; scales only
  -- restores in phase Switching or Active; and moves the Service only to a restore in phase Switching whose
  -- redaction, schema migration and schema build, as far as the replica asks for them, are done. A redaction is
  -- done where the replica's redaction phase says that one ended (it may be an earlier restore's), or where the
  -- spec, the database, the manifest, its application and the read-only mode that is put back all go well.
  pub reconcile_replica-Allowed :
      Emits (Allowed api replica (children api.restores)) (reconcile_replica api replica)
  unfolding reconcile_replica
  reconcile_replica-Allowed = reconcile_in-May replica.namespace
