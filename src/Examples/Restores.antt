-- ===== src/Examples/Restores.antt =====
-- One reconcile of a restore at concrete inputs: src/controllers/restore.rs.
use postgres_restore_operato.Prelude.{
  String, true, false, none, some, List, [], ◌∷◌, slash_join, arith,
}
use postgres_restore_operato.Types.{PostgresPhysicalReplica, RestorePhase, PostgresPhysicalRestore}
use postgres_restore_operato.Effects.{Message, Error, ok, err, RestoreField}
use postgres_restore_operato.Effects.Emits.{Emits}
use postgres_restore_operato.Reindex.{Observation}
use postgres_restore_operato.Jobs.{Job}
use postgres_restore_operato.Restore.{RestoreApi}
use postgres_restore_operato.Restore.Reconcile.{reconcile}
use postgres_restore_operato.Restore.Lifecycle.{Follows, reconcile-Follows}
use postgres_restore_operato.Restore.Slot.{Released, reconcile-Released}
use postgres_restore_operato.Restore.Failure.{fail_restore}
use postgres_restore_operato.Restore.Retry.{Retried, fail_restore-retries}
use postgres_restore_operato.Examples.{a_replica}

abbrev failed_job : Job
failed_job = record {
  name = some "x-restore";
  restore_label = some "x";
  creation_timestamp = some 0;
  deletion_timestamp = none;
  receipt = none;
  backoff_limit = some 3;
  status = some (record {
    succeeded = none;
    failed = some 4;
    start_time = none;
    completion_time = none;
    conditions = none;
  });
}

abbrev only_first : List String → List String
only_first [] = []
only_first (s ∷ schemas) = s ∷ []

-- A cluster that accepts every write, in which the restore Job has failed.
abbrev pub api : RestoreApi
api = record {
  now = 1000;
  accepts = λ c. true;
  find_replica = λ n. ok (some a_replica);
  reread_restore = λ n. ok none;
  find_job = λ n. ok (some failed_job);
  created_job = λ n. failed_job;
  list_jobs = λ n. ok [];
  find_pvc = λ n. ok none;
  find_service = λ n. ok true;
  ready_replicas = λ n. none;
  builds = λ k n. ok tt;
  termination_message = λ j c. none;
  minted_run_id = "run";
  cache_pvc_size = λ q. q;
  cache_size_needs_grow = λ a b. false;
  to_bytes = λ q. some 1;
  deployment_ready_timeout_secs = 300;
  watches = [];
  reindex_progress = Observation.failed;
  credentials = ok tt;
  database = err Error.no_application_database;
  latest_batch_at = ok none;
  connects = ok tt;
  existing_schemas = λ s. ok (only_first s);
  read_result = λ b f. err Error.kube;
}

-- A replica that has schemas dropped before a migration.
abbrev migrated : PostgresPhysicalReplica
migrated = record a_replica { pre_migrate_drop_schemas = some ("dbt" ∷ "public" ∷ []) }

abbrev pub restoring : PostgresPhysicalRestore
restoring = record {
  name = "x";
  namespace = some "ns";
  deletion_timestamp = none;
  replica = "r";
  snapshot = "k1";
  snapshot_size = "1Gi";
  migrate_to = none;
  builder_image = none;
  rank = none;
  phase = some RestorePhase.restoring;
  run_id = none;
  postgres_version = none;
  created_at = some 1;
  restored_at = none;
  migration_baseline = none;
  migration_result = none;
  schema_build_result = none;
  schema_build_attempts = none;
}

reconcile-Follows_example :
    Emits (Follows "x" (some RestorePhase.restoring)) (reconcile api restoring)
reconcile-Follows_example = reconcile-Follows api restoring

reconcile-Released_example : Released api (slash_join "ns" "r") (reconcile api restoring)
reconcile-Released_example = reconcile-Released api restoring

abbrev broken : List RestoreField
broken = RestoreField.phase RestorePhase.failed ∷ []

fail_restore-retries_example :
    Retried 1000 "ns" "x" "r" broken
      (ok (some a_replica))
      true
      (fail_restore api "ns" "x" "r" broken (Message.text "broken"))
fail_restore-retries_example =
    fail_restore-retries api "ns" "x" "r" broken (Message.text "broken") (omega arith)
