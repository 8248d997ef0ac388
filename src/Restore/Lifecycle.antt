-- ===== src/Restore/Lifecycle.antt =====
-- The phases of a restore: what one reconcile of src/controllers/restore.rs can make of them.
use postgres_restore_operato.Prelude.{
  ◌≡◌, refl, String, Bool, true, false, Option, none, some, List, [], ◌∷◌, arith, All,
}
use postgres_restore_operato.Types.{RestorePhase, PostgresPhysicalReplica, PostgresPhysicalRestore}
use postgres_restore_operato.Effects.{Error, Result, ok, err, Message, RestoreField, Call}
use postgres_restore_operato.Effects.Emits.{
  Emits, emits, branch-Emits, bind-Emits, attempt-Emits, try-Emits,
}
use postgres_restore_operato.Jobs.{Job}
use postgres_restore_operato.Restore.{RestoreApi}
use postgres_restore_operato.Restore.Failure.{fail_restore}
use postgres_restore_operato.Restore.Handlers.{
  ensure_restore_job, reconcile_pending, reconcile_restoring, reconcile_switching, reconcile_active,
  ensure_data_pvc, ensure_kopia_cache_pvc, cleanup_previous_jobs, delete_previous, version_field,
  apply_restore_deployment, ensure_restore_service,
}
use postgres_restore_operato.Restore.Readiness.{
  reconcile_ready, detect_version, advance, await_readiness, start_switching,
}
use postgres_restore_operato.Restore.Migrating.{
  reconcile_migrating, with_database, start_migration, drop_pre_migrate_schemas,
  run_pre_migrate_sql,
}
use postgres_restore_operato.Restore.Reconcile.{dispatch, in_namespace, reconcile}

-- The diagram: which phase a reconcile may write from which. Active is written by the replica's
-- controller at the switchover.
abbrev pub may_follow : Option RestorePhase → RestorePhase → Bool
may_follow none RestorePhase.pending = true
may_follow none RestorePhase.restoring = true
may_follow (some RestorePhase.pending) RestorePhase.pending = true
may_follow (some RestorePhase.pending) RestorePhase.restoring = true
may_follow (some RestorePhase.restoring) RestorePhase.ready = true
may_follow (some RestorePhase.restoring) RestorePhase.failed = true
may_follow (some RestorePhase.migrating) RestorePhase.ready = true
may_follow (some RestorePhase.migrating) RestorePhase.failed = true
may_follow (some RestorePhase.ready) RestorePhase.migrating = true
may_follow (some RestorePhase.ready) RestorePhase.switching = true
may_follow (some RestorePhase.ready) RestorePhase.failed = true
may_follow _ _ = false

abbrev pub FieldFollows : Option RestorePhase → RestoreField → Type 0
FieldFollows from (RestoreField.phase to) = may_follow from to ≡ true
FieldFollows from _ = Unit

-- A patch of a restore is of this restore, and writes a phase that may follow.
abbrev pub Follows : String → Option RestorePhase → Call → Type 0
Follows name from (Call.patch_restore n fields) = (n ≡ name) × All (FieldFollows from) fields
Follows name from _ = Unit

module _ (api : RestoreApi) where
  fail_restore-Follows :
      (namespace name replica_name : String) (patch : List RestoreField) (error : Message)
      (from : Option RestorePhase)
      → All (FieldFollows from) patch
      → Emits (Follows name from) (fail_restore api namespace name replica_name patch error)
  unfolding fail_restore
  fail_restore-Follows namespace name replica_name patch error from h = search emits depth 20

  delete_previous-Follows :
      (current name : String) (jobs : List Job) (from : Option RestorePhase)
      → Emits (Follows name from) (delete_previous api current jobs)
  unfolding delete_previous
  delete_previous-Follows current name [] from = search emits
  delete_previous-Follows current name (job ∷ jobs) from =
      let rest = delete_previous-Follows current name jobs from in
      branch-Emits _ rest (bind-Emits _ _ (attempt-Emits _ _ tt) λ _. rest)

  reconcile_pending-Follows :
      (restore : PostgresPhysicalRestore) (name namespace : String) (from : Option RestorePhase)
      → may_follow from RestorePhase.pending ≡ true
      → may_follow from RestorePhase.restoring ≡ true
      → Emits (Follows name from) (reconcile_pending api restore name namespace)
  unfolding reconcile_pending cleanup_previous_jobs ensure_data_pvc ensure_kopia_cache_pvc
  reconcile_pending-Follows restore name namespace from h k =
      search (emits, delete_previous-Follows) depth 30

  version_field-Follows :
      (v : Option String) (from : Option RestorePhase) → All (FieldFollows from) (version_field v)
  unfolding version_field
  version_field-Follows v from = ground arith

  reconcile_restoring-Follows :
      (restore : PostgresPhysicalRestore) (name namespace : String)
      → Emits
          (Follows name (some RestorePhase.restoring))
          (reconcile_restoring api restore name namespace)
  unfolding reconcile_restoring ensure_restore_job
  reconcile_restoring-Follows restore name namespace = bind-Emits _ _ (search emits depth 20) λ job.
      branch-Emits _
        (bind-Emits _ _
          (try-Emits _ _
            (refl, (refl, (tt, (tt, version_field-Follows _ (some RestorePhase.restoring))))))
          λ _. search emits depth 20)
        (search (emits, fail_restore-Follows) depth 20)

  reconcile_ready-Follows :
      (restore : PostgresPhysicalRestore) (name namespace : String)
      → Emits (Follows name (some RestorePhase.ready)) (reconcile_ready api restore name namespace)
  unfolding reconcile_ready detect_version advance start_switching await_readiness
      ensure_restore_service apply_restore_deployment
  reconcile_ready-Follows restore name namespace = search (emits, fail_restore-Follows) depth 30

  with_database-Follows :
      (database : Result String) (replica : PostgresPhysicalReplica)
      (restore : PostgresPhysicalRestore) (name namespace : String)
      → Emits
          (Follows name (some RestorePhase.migrating))
          (with_database api database replica restore name namespace)
  unfolding with_database start_migration drop_pre_migrate_schemas run_pre_migrate_sql
  with_database-Follows (ok dbname) replica restore name namespace = search emits depth 30
  with_database-Follows (err Error.no_application_database) replica restore name namespace =
      search (fail_restore-Follows)
  with_database-Follows (err _) replica restore name namespace = search emits

  reconcile_migrating-Follows :
      (restore : PostgresPhysicalRestore) (name namespace : String)
      → Emits
          (Follows name (some RestorePhase.migrating))
          (reconcile_migrating api restore name namespace)
  unfolding reconcile_migrating
  reconcile_migrating-Follows restore name namespace =
      search (emits, with_database-Follows) depth 30

  dispatch-Follows :
      (from : Option RestorePhase) (restore : PostgresPhysicalRestore) (name namespace : String)
      → Emits (Follows name from) (dispatch api from restore name namespace)
  unfolding dispatch reconcile_switching reconcile_active apply_restore_deployment
  dispatch-Follows none restore name namespace =
      reconcile_pending-Follows restore name namespace none refl refl
  dispatch-Follows (some RestorePhase.pending) restore name namespace =
      reconcile_pending-Follows restore name namespace (some RestorePhase.pending) refl refl
  dispatch-Follows (some RestorePhase.restoring) restore name namespace =
      reconcile_restoring-Follows restore name namespace
  dispatch-Follows (some RestorePhase.migrating) restore name namespace =
      reconcile_migrating-Follows restore name namespace
  dispatch-Follows (some RestorePhase.ready) restore name namespace =
      reconcile_ready-Follows restore name namespace
  dispatch-Follows (some RestorePhase.switching) restore name namespace = search emits depth 20
  dispatch-Follows (some RestorePhase.active) restore name namespace = search emits depth 20
  dispatch-Follows (some RestorePhase.failed) restore name namespace = search emits

  in_namespace-Follows :
      (namespace : Option String) (restore : PostgresPhysicalRestore)
      → Emits (Follows restore.name restore.phase) (in_namespace api namespace restore)
  unfolding in_namespace
  in_namespace-Follows none restore = search emits
  in_namespace-Follows (some namespace) restore = search (emits, dispatch-Follows)

  -- Whatever the cluster answers, every patch that one reconcile of a restore attempts on a
  -- restore's status is a patch of that restore, and a phase that it writes may follow the phase
  -- the restore was in: in particular a Failed, Switching or Active restore has no phase written,
  -- and Switching is reached from Ready alone.
  pub reconcile-Follows :
      (restore : PostgresPhysicalRestore)
      → Emits (Follows restore.name restore.phase) (reconcile api restore)
  unfolding reconcile
  reconcile-Follows restore = in_namespace-Follows restore.namespace restore
