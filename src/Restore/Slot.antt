-- ===== src/Restore/Slot.antt =====
-- The replica's slot in the restore queue: what one reconcile of src/controllers/restore.rs owes the queue
-- when the restore leaves the part of its life that the slot is held for.
use postgres_restore_operato.Prelude.{
  ◌≡◌, refl, String, Bool, true, false, not, ◌&&◌, Option, none, some, List, [], ◌∷◌, arith, any,
  ◌==◌, eq_refl, if◌then◌else◌, unwrap_or, slash_join,
}
use postgres_restore_operato.Types.{
  Timestamp, RestorePhase, PostgresPhysicalReplica, PostgresPhysicalRestore,
}
use postgres_restore_operato.Effects.{Error, Result, ok, err, Message, RestoreField, Call, M}
use postgres_restore_operato.Effects.Followed.{
  Followed, followed, bind-Followed, branch-Followed, attempt-Followed, try-Followed,
  try-note-Followed,
}
use postgres_restore_operato.Jobs.{Job}
use postgres_restore_operato.Restore.{RestoreApi, restore_job_name}
use postgres_restore_operato.Restore.Failure.{fail_restore}
use postgres_restore_operato.Restore.Handlers.{
  ensure_restore_job, reconcile_pending, reconcile_restoring, reconcile_switching, reconcile_active,
  ensure_data_pvc, ensure_kopia_cache_pvc, cleanup_previous_jobs, delete_previous, version_field,
  apply_restore_deployment, ensure_restore_service,
}
use postgres_restore_operato.Restore.Readiness.{
  reconcile_ready, detect_version, advance, await_readiness, start_switching,
}
use postgres_restore_operato.Restore.Migrating.{
  reconcile_migrating, with_database, start_migration, drop_pre_migrate_schemas,
  run_pre_migrate_sql,
}
use postgres_restore_operato.Restore.Reconcile.{dispatch, in_namespace, reconcile}

-- The phases that end the restoring: the slot is held up to Ready.
abbrev pub ends_use : RestoreField → Bool
ends_use (RestoreField.phase RestorePhase.failed) = true
ends_use (RestoreField.phase RestorePhase.switching) = true
ends_use _ = false

-- An accepted patch that writes such a phase.
abbrev pub ended : (Call → Bool) → Call → Bool
ended accepts (Call.patch_restore n fields) =
    any ends_use fields && accepts (Call.patch_restore n fields)
ended accepts _ = false

abbrev pub releases : String → Call → Bool
releases key (Call.release_slot k) = k == key
releases key _ = false

abbrev pub Released : {A : Type 0} → RestoreApi → String → M A → Type 0
Released api key m = Followed (ended api.accepts) (releases key) m

module _ (api : RestoreApi) where
  accepted_or_not :
      (n : String) (fields : List RestoreField)
      → (if api.accepts (Call.patch_restore n fields)
          then true
          else not (ended api.accepts (Call.patch_restore n fields)))
        ≡ true
  accepted_or_not n fields = ground arith

  fail_restore-Released :
      (namespace name replica_name : String) (patch : List RestoreField) (error : Message)
      → Released api
          (slash_join namespace replica_name)
          (fail_restore api namespace name replica_name patch error)
  unfolding fail_restore
  fail_restore-Released namespace name replica_name patch error =
      try-note-Followed api.accepts _ _ _ (accepted_or_not name patch) (eq_refl _) refl
        (search followed depth 20)

  delete_previous-Released :
      (key current : String) (jobs : List Job) → Released api key (delete_previous api current jobs)
  unfolding delete_previous
  delete_previous-Released key current [] = search followed
  delete_previous-Released key current (job ∷ jobs) =
      let rest = delete_previous-Released key current jobs in
      branch-Followed _ rest (bind-Followed _ _ (attempt-Followed _ _ refl) λ _. rest)

  reconcile_pending-Released :
      (key : String) (restore : PostgresPhysicalRestore) (name namespace : String)
      → Released api key (reconcile_pending api restore name namespace)
  unfolding reconcile_pending cleanup_previous_jobs ensure_data_pvc ensure_kopia_cache_pvc
  reconcile_pending-Released key restore name namespace =
      search (followed, delete_previous-Released) depth 30

  version_field_quiet : (v : Option String) → any ends_use (version_field v) ≡ false
  unfolding version_field
  version_field_quiet v = ground arith

  restored-ended :
      (name : String) (v : Option String) (rest : Option Timestamp)
      → ended api.accepts (
          Call.patch_restore name (
            RestoreField.phase RestorePhase.ready
            ∷ RestoreField.restored_at api.now
            ∷ RestoreField.restore_job (restore_job_name name) "Succeeded" rest
            ∷ version_field v))
        ≡ false
  restored-ended name v rest = ground (arith, version_field_quiet v)

  reconcile_restoring-Released :
      (restore : PostgresPhysicalRestore) (name namespace : String)
      → Released api
          (slash_join namespace restore.replica)
          (reconcile_restoring api restore name namespace)
  unfolding reconcile_restoring ensure_restore_job
  reconcile_restoring-Released restore name namespace =
      bind-Followed _ _ (search followed depth 20) λ job.
        branch-Followed _
          (bind-Followed _ _ (try-Followed _ _ (restored-ended name _ _))
            λ _. search followed depth 20)
          (search (followed, fail_restore-Released) depth 20)

  start_switching-Released :
      (restore : PostgresPhysicalRestore) (name namespace : String)
      → Released api
          (slash_join namespace restore.replica)
          (start_switching api restore name namespace)
  unfolding start_switching
  start_switching-Released restore name namespace =
      try-note-Followed api.accepts _ _ _ (accepted_or_not name _) (eq_refl _) refl
        (search followed depth 20)

  reconcile_ready-Released :
      (restore : PostgresPhysicalRestore) (name namespace : String)
      → Released api
          (slash_join namespace restore.replica)
          (reconcile_ready api restore name namespace)
  unfolding reconcile_ready detect_version advance await_readiness ensure_restore_service
      apply_restore_deployment
  reconcile_ready-Released restore name namespace =
      search (followed, start_switching-Released, fail_restore-Released) depth 30

  with_database-Released :
      (database : Result String) (replica : PostgresPhysicalReplica)
      (restore : PostgresPhysicalRestore) (name namespace : String)
      → Released api
          (slash_join namespace restore.replica)
          (with_database api database replica restore name namespace)
  unfolding with_database start_migration drop_pre_migrate_schemas run_pre_migrate_sql
  with_database-Released (ok dbname) replica restore name namespace = search followed depth 30
  with_database-Released (err Error.no_application_database) replica restore name namespace =
      search (fail_restore-Released)
  with_database-Released (err _) replica restore name namespace = search followed

  reconcile_migrating-Released :
      (restore : PostgresPhysicalRestore) (name namespace : String)
      → Released api
          (slash_join namespace restore.replica)
          (reconcile_migrating api restore name namespace)
  unfolding reconcile_migrating
  reconcile_migrating-Released restore name namespace =
      search (followed, with_database-Released) depth 30

  dispatch-Released :
      (from : Option RestorePhase) (restore : PostgresPhysicalRestore) (name namespace : String)
      → Released api
          (slash_join namespace restore.replica)
          (dispatch api from restore name namespace)
  unfolding dispatch reconcile_switching reconcile_active apply_restore_deployment
  dispatch-Released none restore name namespace =
      reconcile_pending-Released _ restore name namespace
  dispatch-Released (some RestorePhase.pending) restore name namespace =
      reconcile_pending-Released _ restore name namespace
  dispatch-Released (some RestorePhase.restoring) restore name namespace =
      reconcile_restoring-Released restore name namespace
  dispatch-Released (some RestorePhase.migrating) restore name namespace =
      reconcile_migrating-Released restore name namespace
  dispatch-Released (some RestorePhase.ready) restore name namespace =
      reconcile_ready-Released restore name namespace
  dispatch-Released (some RestorePhase.switching) restore name namespace = search followed depth 20
  dispatch-Released (some RestorePhase.active) restore name namespace = search followed depth 20
  dispatch-Released (some RestorePhase.failed) restore name namespace = search followed

  in_namespace-Released :
      (namespace : Option String) (restore : PostgresPhysicalRestore)
      → Released api
          (slash_join (unwrap_or namespace "") restore.replica)
          (in_namespace api namespace restore)
  unfolding in_namespace
  in_namespace-Released none restore = search followed
  in_namespace-Released (some namespace) restore = search (followed, dispatch-Released)

  -- Whatever the cluster answers, when one reconcile of a restore has a patch accepted that writes
  -- Failed or Switching, the same reconcile releases the queue slot of the restore's replica later
  -- on: no failure of an API call between the two can leak the slot.
  pub reconcile-Released :
      (restore : PostgresPhysicalRestore)
      → Released api
          (slash_join (unwrap_or restore.namespace "") restore.replica)
          (reconcile api restore)
  unfolding reconcile
  reconcile-Released restore = in_namespace-Released restore.namespace restore
