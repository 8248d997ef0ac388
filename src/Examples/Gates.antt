-- ===== src/Examples/Gates.antt =====
-- The gates of a switchover at concrete inputs: src/controllers/replica.rs and
-- src/controllers/replica/{redaction,schema_build}.rs.
use postgres_restore_operato.Prelude.{
  pos, ◌≡◌, refl, ◌||◌, true, false, none, some, List, [], ◌∷◌, arith, String,
}
use postgres_restore_operato.Types.{RedactionSpec, PostgresPhysicalReplica, PostgresPhysicalRestore}
use postgres_restore_operato.Effects.{err, Error}
use postgres_restore_operato.Effects.Opens.{passed, Opens}
use postgres_restore_operato.Replica.{ReplicaApi}
use postgres_restore_operato.Replica.Redaction.{reconcile_redaction_step}
use postgres_restore_operato.Replica.Migration.{reconcile_schema_migration}
use postgres_restore_operato.Replica.Build.{build_status}
use postgres_restore_operato.Replica.Build.Step.{reconcile_schema_build}
use postgres_restore_operato.Replica.Build.Settles.{is_over, busy, passes, passes-is_over}
use postgres_restore_operato.Replica.Redaction.Succeeds.{is_redacted, run_succeeds}
use postgres_restore_operato.Replica.Passing.{
  migration_settled, reconcile_redaction_step-Opens, reconcile_schema_migration-Opens,
}
use postgres_restore_operato.Replica.Build.Passing.{passed-reconcile_schema_build}
use postgres_restore_operato.Examples.{a_replica}
use postgres_restore_operato.Examples.Restores.{restoring}
use postgres_restore_operato.Examples.Replicas.{cluster, switching, redacted}

abbrev a_spec : RedactionSpec
a_spec = record {
  manifest_url = "https://manifests/redact.json";
  version = none;
  version_query = none;
  version_fallback_to_base = false;
}

reconcile_redaction_step-Opens_example :
    Opens
      (is_redacted redacted.redaction_phase || run_succeeds cluster redacted a_spec "x")
      (reconcile_redaction_step cluster redacted a_spec "x")
reconcile_redaction_step-Opens_example = reconcile_redaction_step-Opens cluster redacted a_spec "x"

reconcile_schema_migration-Opens_example :
    Opens
      (migration_settled cluster redacted (some restoring) redacted.persistent_schemas)
      (reconcile_schema_migration cluster redacted switching (some restoring))
reconcile_schema_migration-Opens_example =
    reconcile_schema_migration-Opens cluster redacted switching (some restoring)

-- A restore that builds a reporting schema, migrated to its version.
abbrev building : PostgresPhysicalRestore
building = record switching {
  migrate_to = some (record { version = "2.41.0"; version_id = "v" });
  builder_image = some "builder";
  rank = some "production";
  migration_result = some (record {
    total_elapsed_seconds = pos 9;
    failed_migration = none;
    error = none;
    data_bytes_before = pos 1;
    data_bytes_after = pos 2;
    timings = [];
  });
}

abbrev named_group : PostgresPhysicalReplica
named_group = record a_replica { labels = ("pgro.bes.au/group", "g") ∷ [] }

passed-reconcile_schema_build_example :
    passed (reconcile_schema_build cluster named_group building).result ≡ is_over building
passed-reconcile_schema_build_example = passed-reconcile_schema_build cluster named_group building

-- A cluster in which no build can be set up.
abbrev locked : ReplicaApi
locked = record cluster { databases = record cluster.databases { credentials = err Error.kube } }

-- Five passes that fail, with one between them that creates the Job.
abbrev six : List ReplicaApi
six = locked ∷ locked ∷ cluster ∷ locked ∷ locked ∷ locked ∷ []

five_busy : busy six named_group building ≡ 5
unfolding build_status
five_busy = refl

passes-is_over_example : is_over (passes six named_group building) ≡ true
passes-is_over_example =
    passes-is_over six named_group building (omega (arith, five_busy)) (omega (arith, five_busy))

abbrev with_users : PostgresPhysicalReplica
with_users = record a_replica {
  extra_users =
      (record { name = "dbt"; schemas = "a" ∷ "a" ∷ [] })
      ∷ (record { name = "analytics"; schemas = [] })
      ∷ [];
}

abbrev untrimmed : String → String
untrimmed s = s
