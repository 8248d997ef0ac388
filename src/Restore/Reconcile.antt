-- ===== src/Restore/Reconcile.antt =====
-- `reconcile` of src/controllers/restore.rs: one handler for each phase.
use postgres_restore_operato.Prelude.{String, Option, none, some}
use postgres_restore_operato.Types.{RestorePhase, PostgresPhysicalRestore}
use postgres_restore_operato.Effects.{Error, err, M, answer, note, Call, ◌>>◌, Action, requeue}
use postgres_restore_operato.Restore.{RestoreApi}
use postgres_restore_operato.Restore.Handlers.{
  reconcile_pending, reconcile_restoring, reconcile_switching, reconcile_active,
}
use postgres_restore_operato.Restore.Readiness.{reconcile_ready}
use postgres_restore_operato.Restore.Migrating.{reconcile_migrating}

module _ (api : RestoreApi) where
  unfoldable pub dispatch :
      Option RestorePhase → PostgresPhysicalRestore → String → String → M Action
  dispatch none restore name namespace = reconcile_pending api restore name namespace
  dispatch (some RestorePhase.pending) restore name namespace =
      reconcile_pending api restore name namespace
  dispatch (some RestorePhase.restoring) restore name namespace =
      reconcile_restoring api restore name namespace
  dispatch (some RestorePhase.migrating) restore name namespace =
      reconcile_migrating api restore name namespace
  dispatch (some RestorePhase.ready) restore name namespace =
      reconcile_ready api restore name namespace
  dispatch (some RestorePhase.switching) restore name namespace =
      reconcile_switching api restore name
  dispatch (some RestorePhase.active) restore name namespace = reconcile_active api restore name
  dispatch (some RestorePhase.failed) restore name namespace = requeue 300

  unfoldable pub in_namespace : Option String → PostgresPhysicalRestore → M Action
  unfolding dispatch
  in_namespace none restore = answer (err (Error.missing_namespace restore.name))
  in_namespace (some namespace) restore = do
    note (Call.count "reconciliations_total")
    dispatch restore.phase restore restore.name namespace

  unfoldable pub reconcile : PostgresPhysicalRestore → M Action
  unfolding in_namespace
  reconcile restore = in_namespace restore.namespace restore
