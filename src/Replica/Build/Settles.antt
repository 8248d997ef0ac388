-- ===== src/Replica/Build/Settles.antt =====
-- That a reporting-schema build stops holding its switchover: `reconcile_schema_build` of
-- src/controllers/replica/schema_build.rs, whole and pass after pass.
use postgres_restore_operato.Prelude.{
  ◌+◌, ◌≤◌, ◌<◌, ◌≡◌, refl, String, Bool, true, false, ◌&&◌, ◌||◌, Option, none, some, List, [],
  ◌∷◌, inl, inr, arith, is_some, is_none, length, Bool-cases, subst, sym, ℕ, suc, not, filter, ◌⊎◌,
}
use postgres_restore_operato.Types.{PostgresPhysicalReplica, PostgresPhysicalRestore}
use postgres_restore_operato.Effects.{
  Result, ok, err, Call, Trace, outcome, ◌>>=◌, ◌>>◌, pure, answer, try, note, cases, catch,
}
use postgres_restore_operato.Jobs.{Job}
use postgres_restore_operato.Replica.{ReplicaApi}
use postgres_restore_operato.Replica.Build.{
  BuildToDo, BuildOutcome, BuildStatus, attempts_so_far, build_to_do, build_status, build_job_name,
}
use postgres_restore_operato.Replica.Build.Step.{
  retry_or_settle, discover_build_database, ensure_pull_secret, create_build_job, start_build,
  by_outcome, do_build, reconcile_schema_build,
}
use postgres_restore_operato.Replica.Build.Progress.{
  willing, after, pass, Moves, settle_failed-Moves, settle_failed_records, retry-Moves,
  succeeded-Moves, fail_build-Moves,
}

-- A build that does not hold its switchover: its result is recorded, or there is none to run.
abbrev pub is_over : PostgresPhysicalRestore → Bool
is_over r = is_some r.schema_build_result || (is_none r.builder_image || is_none r.migrate_to)

abbrev pub opens : BuildToDo → Bool
opens BuildToDo.settled = true
opens BuildToDo.no_target = true
opens BuildToDo.no_image = true
opens _ = false

abbrev is_accepted : Result (Unit {0}) → Bool
is_accepted (ok done) = true
is_accepted (err e) = false

abbrev is_found : Result String → Bool
is_found (ok dbname) = true
is_found (err e) = false

abbrev is_copied : Option (Result (Unit {0})) → Bool
is_copied none = true
is_copied (some source) = is_accepted source

-- A pass that finds its Job running, creates it, or cannot read whether there is one.
abbrev waits_on : ReplicaApi → String → BuildOutcome → Bool
waits_on api name BuildOutcome.not_started =
    is_accepted api.databases.credentials
    && (is_found (api.databases.discover name) && is_copied api.building.pull_secret)
waits_on api name BuildOutcome.running = true
waits_on api name _ = false

abbrev waits_read : ReplicaApi → String → Result (Option Job) → Bool
waits_read api name (err e) = true
waits_read api name (ok job) =
    waits_on api name (build_status api.building.parse_bytes api.now job).outcome

abbrev pub waits : ReplicaApi → PostgresPhysicalReplica → PostgresPhysicalRestore → Bool
waits api replica r = waits_read api r.name (api.find_job (build_job_name replica.name))

pub opens-build_to_do :
    (parse_uuid : String → Option String) (replica : PostgresPhysicalReplica)
    (r : PostgresPhysicalRestore)
    → opens (build_to_do parse_uuid replica r) ≡ is_over r
unfolding build_to_do
opens-build_to_do parse_uuid replica r = ground arith

module _ (api : ReplicaApi) (replica : PostgresPhysicalReplica) (r : PostgresPhysicalRestore) where
  quiet :
      (to_do : BuildToDo)
      → opens to_do ≡ true
      → after (do_build (willing api) to_do replica r).trace r ≡ r
  unfolding do_build note pure ◌>>=◌
  quiet BuildToDo.settled h = refl
  quiet BuildToDo.no_target h = refl
  quiet BuildToDo.no_image h = refl
  quiet BuildToDo.no_group h = cc
  quiet BuildToDo.no_rank h = cc
  quiet BuildToDo.unmigrated h = cc
  quiet (BuildToDo.build image target group rank) h = cc

  setup-Moves :
      (credentials : Result (Unit {0})) (found : Result String)
      (source : Option (Result (Unit {0})))
      → (is_accepted credentials && (is_found found && is_copied source)) ≡ false
      → Moves r
          (catch
            (answer credentials >> answer found)
            (λ dbname.
              catch
                (cases source
                  (pure tt)
                  λ read. answer read >> try (λ c. true) Call.apply_pull_secret)
                (λ pulled. create_build_job (willing api) replica.name >> pure false)
                (retry_or_settle (willing api) r))
            (retry_or_settle (willing api) r)).trace
  unfolding catch answer ◌>>=◌ cases pure
  setup-Moves (err e) found source h = retry-Moves api r e
  setup-Moves (ok u) (err e) source h = retry-Moves api r e
  setup-Moves (ok u) (ok dbname) none h = cc
  setup-Moves (ok u) (ok dbname) (some (err e)) h = retry-Moves api r e
  setup-Moves (ok u) (ok dbname) (some (ok v)) h = cc

  by_outcome-Moves :
      (o : BuildOutcome) (target group rank : String) (build : BuildStatus)
      → waits_on api r.name o ≡ false
      → Moves r (by_outcome (willing api) o replica r target group rank build).trace
  unfolding by_outcome start_build discover_build_database ensure_pull_secret note ◌>>=◌
  by_outcome-Moves BuildOutcome.not_started target group rank build h =
      setup-Moves api.databases.credentials (api.databases.discover r.name) api.building.pull_secret
        h
  by_outcome-Moves BuildOutcome.running target group rank build h = cc
  by_outcome-Moves BuildOutcome.succeeded target group rank build h =
      succeeded-Moves api r replica target group rank build
  by_outcome-Moves BuildOutcome.failed target group rank build h =
      fail_build-Moves api r replica build

  read-Moves :
      (read : Result (Option Job)) (target group rank : String)
      → waits_read api r.name read ≡ false
      → Moves r
          (answer read >>= λ job.
            let build = build_status api.building.parse_bytes api.now job in
            by_outcome (willing api) build.outcome replica r target group rank build).trace
  unfolding answer ◌>>=◌
  read-Moves (err e) target group rank h = cc
  read-Moves (ok job) target group rank h = by_outcome-Moves _ target group rank _ h

  do_build-Moves :
      (to_do : BuildToDo)
      → opens to_do ≡ false
      → waits api replica r ≡ false
      → Moves r (do_build (willing api) to_do replica r).trace
  unfolding do_build
  do_build-Moves BuildToDo.settled h k = cc
  do_build-Moves BuildToDo.no_target h k = cc
  do_build-Moves BuildToDo.no_image h k = cc
  do_build-Moves BuildToDo.no_group h k = settle_failed-Moves api r _
  do_build-Moves BuildToDo.no_rank h k = settle_failed-Moves api r _
  do_build-Moves BuildToDo.unmigrated h k = settle_failed-Moves api r _
  do_build-Moves (BuildToDo.build image target group rank) h k = read-Moves _ target group rank k

  -- A pass that waits for its Job leaves the build as it is, unless it records a result.
  abbrev Stays : Trace → Type 0
  Stays t = (is_some (after t r).schema_build_result ≡ true) ⊎ (after t r ≡ r)

  setup-Stays :
      (credentials : Result (Unit {0})) (found : Result String)
      (source : Option (Result (Unit {0})))
      → (is_accepted credentials && (is_found found && is_copied source)) ≡ true
      → after
          (catch
            (answer credentials >> answer found)
            (λ dbname.
              catch
                (cases source
                  (pure tt)
                  λ read. answer read >> try (λ c. true) Call.apply_pull_secret)
                (λ pulled. create_build_job (willing api) replica.name >> pure false)
                (retry_or_settle (willing api) r))
            (retry_or_settle (willing api) r)).trace
          r
        ≡ r
  unfolding catch answer ◌>>=◌ cases pure create_build_job try outcome
  setup-Stays (err e) found source h = cc
  setup-Stays (ok u) (err e) source h = cc
  setup-Stays (ok u) (ok dbname) none h = refl
  setup-Stays (ok u) (ok dbname) (some (err e)) h = cc
  setup-Stays (ok u) (ok dbname) (some (ok v)) h = refl

  by_outcome-Stays :
      (o : BuildOutcome) (target group rank : String) (build : BuildStatus)
      → waits_on api r.name o ≡ true
      → after (by_outcome (willing api) o replica r target group rank build).trace r ≡ r
  unfolding by_outcome start_build discover_build_database ensure_pull_secret note ◌>>=◌ pure
  by_outcome-Stays BuildOutcome.not_started target group rank build h =
      setup-Stays api.databases.credentials (api.databases.discover r.name) api.building.pull_secret
        h
  by_outcome-Stays BuildOutcome.running target group rank build h = refl
  by_outcome-Stays BuildOutcome.succeeded target group rank build h = cc
  by_outcome-Stays BuildOutcome.failed target group rank build h = cc

  read-Stays :
      (read : Result (Option Job)) (target group rank : String)
      → waits_read api r.name read ≡ true
      → after
          (answer read >>= λ job.
            let build = build_status api.building.parse_bytes api.now job in
            by_outcome (willing api) build.outcome replica r target group rank build).trace
          r
        ≡ r
  unfolding answer ◌>>=◌
  read-Stays (err e) target group rank h = refl
  read-Stays (ok job) target group rank h = by_outcome-Stays _ target group rank _ h

  do_build-Stays :
      (to_do : BuildToDo)
      → opens to_do ≡ false
      → waits api replica r ≡ true
      → Stays (do_build (willing api) to_do replica r).trace
  unfolding do_build
  do_build-Stays BuildToDo.settled h k = cc
  do_build-Stays BuildToDo.no_target h k = cc
  do_build-Stays BuildToDo.no_image h k = cc
  do_build-Stays BuildToDo.no_group h k = inl (settle_failed_records api r _)
  do_build-Stays BuildToDo.no_rank h k = inl (settle_failed_records api r _)
  do_build-Stays BuildToDo.unmigrated h k = inl (settle_failed_records api r _)
  do_build-Stays (BuildToDo.build image target group rank) h k =
      inr (read-Stays _ target group rank k)

  pass-Stays :
      is_over r ≡ false
      → waits api replica r ≡ true
      → Stays (reconcile_schema_build (willing api) replica r).trace
  unfolding reconcile_schema_build
  pass-Stays h k = do_build-Stays _ (rw (opens-build_to_do api.building.parse_uuid replica r) h) k

  pass_over : is_over r ≡ true → pass api replica r ≡ r
  unfolding reconcile_schema_build
  pass_over h = quiet _ (rw (opens-build_to_do api.building.parse_uuid replica r) h)

  pass-Moves :
      is_over r ≡ false
      → waits api replica r ≡ false
      → Moves r (reconcile_schema_build (willing api) replica r).trace
  unfolding reconcile_schema_build
  pass-Moves h k = do_build-Moves _ (rw (opens-build_to_do api.building.parse_uuid replica r) h) k

-- Passes, one after the other.
abbrev pub passes :
    List ReplicaApi → PostgresPhysicalReplica → PostgresPhysicalRestore → PostgresPhysicalRestore
passes [] replica r = r
passes (api ∷ apis) replica r = passes apis replica (pass api replica r)

passes_over :
    (apis : List ReplicaApi) (replica : PostgresPhysicalReplica) (r : PostgresPhysicalRestore)
    → is_over r ≡ true
    → is_over (passes apis replica r) ≡ true
passes_over [] replica r h = h
passes_over (api ∷ apis) replica r h =
    subst (λ x. is_over (passes apis replica x) ≡ true) (sym (pass_over api replica r h))
      (passes_over apis replica r h)

-- How many passes do not wait for a Job.
abbrev pub busy : List ReplicaApi → PostgresPhysicalReplica → PostgresPhysicalRestore → ℕ
busy apis replica r = length (filter (λ api. not (waits api replica r)) apis)

busy_waiting :
    (api : ReplicaApi) (apis : List ReplicaApi) (replica : PostgresPhysicalReplica)
    (r : PostgresPhysicalRestore)
    → waits api replica r ≡ true
    → busy (api ∷ apis) replica r ≡ busy apis replica r
busy_waiting api apis replica r h = rw h refl

busy_moving :
    (api : ReplicaApi) (apis : List ReplicaApi) (replica : PostgresPhysicalReplica)
    (r : PostgresPhysicalRestore)
    → waits api replica r ≡ false
    → busy (api ∷ apis) replica r ≡ suc (busy apis replica r)
busy_moving api apis replica r h = rw h refl

-- The five attempts of a build bound its retries, on a cluster that accepts every write: whatever else fails in a
-- pass (the setup, a Job, a schema lost to a restart of the operator, its registration with canopy), and however
-- many passes between them wait for a Job, which they create, find running or cannot read, once the passes
-- that do not wait are as many as the attempts left of five, and one at least, the build no longer holds
-- the switchover.
pub passes-is_over :
    (apis : List ReplicaApi) (replica : PostgresPhysicalReplica) (r : PostgresPhysicalRestore)
    → 0 < busy apis replica r
    → 5 ≤ busy apis replica r + attempts_so_far r
    → is_over (passes apis replica r) ≡ true
passes-is_over [] replica r some_pass enough = absurd (omega arith)
passes-is_over (api ∷ apis) replica r some_pass enough = elim (Bool-cases (is_over r)) [
  | inl over ↦ passes_over (api ∷ apis) replica r over
  | inr held ↦ elim (Bool-cases (waits api replica r)) [
    | inl waiting ↦
        let same = busy_waiting api apis replica r waiting in
        elim (pass-Stays api replica r held waiting) [
          | inl recorded ↦ passes_over apis replica (pass api replica r) (ground (arith, recorded))
          | inr stays ↦
              subst (λ x. is_over (passes apis replica x) ≡ true) (sym stays)
                (passes-is_over apis replica r (omega (arith, same, some_pass))
                  (omega (arith, same, enough)))
        ]
    | inr moving ↦
        let one_more = busy_moving api apis replica r moving in
        elim (pass-Moves api replica r held moving) [
          | inl recorded ↦ passes_over apis replica (pass api replica r) (ground (arith, recorded))
          | inr (left, counted) ↦
              subst (λ x. is_over (passes apis replica x) ≡ true) (sym counted)
                (passes-is_over apis replica
                  (record r { schema_build_attempts = some (attempts_so_far r + 1) })
                  (omega (arith, one_more, left, enough)) (omega (arith, one_more, enough)))
        ]
  ]
]
