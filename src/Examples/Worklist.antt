-- ===== src/Examples/Worklist.antt =====
-- Canopy's worklist and reports at concrete inputs: src/controllers/canopy.rs,
-- src/controllers/canopy/verification.rs and src/util.rs; and a run of the store of results of
-- src/controllers/jobs.rs.
use postgres_restore_operato.Prelude.{ℕ, ◌≡◌, refl, ◌≤◌, true, none, some, List, [], ◌∷◌, String}
use postgres_restore_operato.Types.{Labels, label, PostgresPhysicalReplica}
use postgres_restore_operato.Effects.{ok}
use postgres_restore_operato.Effects.Emits.{Emits}
use postgres_restore_operato.Slug.{slug, text_length}
use postgres_restore_operato.Slug.Label.{IsLabel, slug-IsLabel}
use postgres_restore_operato.Canopy.{CanopyApi, tick}
use postgres_restore_operato.Intent.{WorklistEntry}
use postgres_restore_operato.Canopy.Coverage.{Covered, tick-Covered}
use postgres_restore_operato.Canopy.Report.{
  RunOutcome, VerificationArgs, ReportApi, identify, build_args, verdict, application_database,
  report, max_by_size, canopy_ids,
}
use postgres_restore_operato.Canopy.Identity.{Sound, report-Sound}
use postgres_restore_operato.Jobs.Refinement.{Op, taken, spec_taken, taken-refines}
use postgres_restore_operato.Examples.{a_replica}
use postgres_restore_operato.Examples.Restores.{restoring}

slug-IsLabel_example : IsLabel (slug "Site A!") × (text_length (slug "Site A!") ≤ 50)
slug-IsLabel_example = slug-IsLabel "Site A!"

abbrev an_entry : WorklistEntry
an_entry = record {
  name = "Site A";
  replica_id = "r";
  server_id = "s";
  group_id = "g";
  type_ = "tamanu";
  intent = "verify";
  target_version = none;
  target_version_id = none;
  rank = none;
  snapshot_id = some "k1";
  params = [];
}

-- A canopy with one entry, and one namespace of an entry that is gone.
abbrev canopy : CanopyApi
canopy = record {
  worklist = some (ok (an_entry ∷ []));
  namespaces = ok ("gone-00000000" ∷ []);
  error_code = λ c. none;
  restore_credentials = λ t g. ok "password";
  desired_snapshot = λ ns. ok none;
  short_hash = λ r s v. "00000000";
}

tick-Covered_example : Emits (Covered canopy (an_entry ∷ []) ("gone-00000000" ∷ [])) (tick canopy)
tick-Covered_example = tick-Covered canopy

abbrev some_labels : Labels
some_labels =
    ("pgro.bes.au/group", "g")
    ∷ ("pgro.bes.au/server", "s")
    ∷ ("pgro.bes.au/declaration-id", "r")
    ∷ []

abbrev sourced : PostgresPhysicalReplica
sourced = record a_replica {
  canopy_source = some (record { group = "g"; backup_type = "tamanu" });
  labels = some_labels;
}

abbrev some_sizes : List (String × ℕ)
some_sizes = ("postgres", 9) ∷ ("tamanu", 5) ∷ ("scratch", 1) ∷ []

abbrev reporting : ReportApi
reporting = record {
  canopy = true;
  namespace_labels = none;
  parse_uuid = λ s. some s;
  sizes = some some_sizes;
}

abbrev unread : VerificationArgs
unread =
    build_args reporting restoring some_labels (RunOutcome.success, none)
      (record { group = "g"; server_id = "s"; replica_id = "r" })

is_sent : report reporting sourced restoring RunOutcome.success none ≡ some unread
unfolding report identify canopy_ids label verdict application_database max_by_size
is_sent = refl

report-Sound_example : Sound reporting sourced RunOutcome.success unread
report-Sound_example =
    report-Sound reporting sourced restoring RunOutcome.success none unread is_sent

largest : application_database some_sizes ≡ some "tamanu"
unfolding application_database max_by_size
largest = refl

abbrev some_ops : List Op
some_ops =
    Op.post "ns" "r" "done" 1 ∷ Op.expire 10 5 ∷ Op.collect "ns" "r" ∷ Op.collect "ns" "r" ∷ []

taken-refines_example : taken some_ops [] ≡ spec_taken some_ops (λ key. none)
taken-refines_example = taken-refines some_ops
