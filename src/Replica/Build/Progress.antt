-- ===== src/Replica/Build/Progress.antt =====
-- That a reporting-schema build comes to an end: passes of `reconcile_schema_build` of
-- src/controllers/replica/schema_build.rs, one after the other, on an API server that takes every write.
use postgres_restore_operato.Prelude.{
  ℕ, ◌+◌, ◌<◌, ◌≡◌, refl, String, Bool, true, false, Option, none, some, List, [], ◌∷◌, ◌==◌, ◌⊎◌,
  inl, inr, arith, eq_refl, ltb, leb, is_some, Bool-cases, if◌then◌else◌,
}
use postgres_restore_operato.Types.{PostgresPhysicalReplica, PostgresPhysicalRestore}
use postgres_restore_operato.Effects.{
  Error, Result, ok, err, Call, RestoreField, Trace, M, ◌>>=◌, pure, answer, try, attempt, note,
  outcome, branch, cases, catch,
}
use postgres_restore_operato.Replica.{ReplicaApi}
use postgres_restore_operato.Replica.Build.{
  build_attempts, BuildOutcome, BuildStatus, EmptyBuild, empty_build, attempts_so_far,
}
use postgres_restore_operato.Replica.Build.Step.{
  record_schema_build, record_build_attempt, settle_failed, retry_or_settle, delete_build_job,
  settle_no_schema, record_schema, finish_schema, registration_failed, register_schema, fail_build,
  by_outcome, reconcile_schema_build, artifacts_of,
}

-- A cluster that takes every write.
abbrev pub willing : ReplicaApi → ReplicaApi
willing api = record api { accepts = λ c. true }

-- The build's fields of a restore's status, as the API server merges a patch.
abbrev pub merge_build : List RestoreField → PostgresPhysicalRestore → PostgresPhysicalRestore
merge_build [] r = r
merge_build (RestoreField.schema_build job result ∷ fields) r =
    merge_build fields (record r { schema_build_result = some result })
merge_build (RestoreField.schema_build_attempts n ∷ fields) r =
    merge_build fields (record r { schema_build_attempts = some n })
merge_build (_ ∷ fields) r = merge_build fields r

abbrev after_call : Call → PostgresPhysicalRestore → PostgresPhysicalRestore
after_call (Call.patch_restore name fields) r = if name == r.name then merge_build fields r else r
after_call _ r = r

abbrev pub after : Trace → PostgresPhysicalRestore → PostgresPhysicalRestore
after [] r = r
after (c ∷ t) r = after t (after_call c r)

abbrev pub pass :
    ReplicaApi → PostgresPhysicalReplica → PostgresPhysicalRestore → PostgresPhysicalRestore
pass api replica r = after (reconcile_schema_build (willing api) replica r).trace r

-- A pass that moves a build: it recorded a result, or one attempt more, below the limit.
abbrev pub Moves : PostgresPhysicalRestore → Trace → Type 0
Moves r t =
    (is_some (after t r).schema_build_result ≡ true)
    ⊎ ((attempts_so_far r + 1 < build_attempts)
        × ((after t r) ≡ record r { schema_build_attempts = some (attempts_so_far r + 1) }))

cases-Moves :
    {A : Type 0} (r : PostgresPhysicalRestore) (o : Option A) (m : M Bool) (f : A → M Bool)
    → Moves r m.trace
    → ((a : A) → Moves r (f a).trace)
    → Moves r (cases o m f).trace
unfolding cases
cases-Moves r none m f h k = h
cases-Moves r (some a) m f h k = k a

chosen :
    (b : Bool)
    → (elim b as (λ _. EmptyBuild) [ true ↦ EmptyBuild.rebuild | false ↦ EmptyBuild.settle ])
      ≡ EmptyBuild.rebuild
    → b ≡ true
chosen true e = refl
chosen false e = cc

empty_build-rebuild :
    (receipted : Bool) (attempts : ℕ)
    → empty_build receipted attempts ≡ EmptyBuild.rebuild
    → attempts < build_attempts
unfolding empty_build
empty_build-rebuild receipted attempts e = ground (arith, chosen _ e)

module _ (api : ReplicaApi) (r : PostgresPhysicalRestore) where
  pub settle_failed_records :
      (error : String)
      → is_some (after (settle_failed (willing api) r.name error).trace r).schema_build_result
        ≡ true
  unfolding settle_failed record_schema_build try ◌>>=◌ outcome pure
  settle_failed_records error = rw (eq_refl r.name) refl

  pub settle_failed-Moves :
      (error : String) → Moves r (settle_failed (willing api) r.name error).trace
  settle_failed-Moves error = inl (settle_failed_records error)

  pub retry-Moves : (e : Error) → Moves r (retry_or_settle (willing api) r e).trace
  unfolding retry_or_settle branch record_build_attempt try ◌>>=◌ outcome pure
  retry-Moves e = elim (Bool-cases (leb build_attempts (attempts_so_far r + 1))) [
    | inl over ↦ rw over (settle_failed-Moves _)
    | inr under ↦ rw under (inr (ground (arith, under), rw (eq_refl r.name) refl))
  ]

  module _ (replica : PostgresPhysicalReplica) where
    finish-Moves :
        (sql : String) (elapsed : ℕ) (registration : Option String) (registered : List String)
        → Moves r (finish_schema (willing api) replica r sql elapsed registration registered).trace
    unfolding finish_schema record_schema record_schema_build delete_build_job attempt catch try
        ◌>>=◌ outcome pure
    finish-Moves sql elapsed registration registered = inl (rw (eq_refl r.name) refl)

    registration_failed-Moves :
        (sql : String) (elapsed : ℕ) (e : Error)
        → Moves r (registration_failed (willing api) replica r sql elapsed e).trace
    unfolding registration_failed branch record_build_attempt note try ◌>>=◌ outcome pure
    registration_failed-Moves sql elapsed e =
        elim (Bool-cases (ltb (attempts_so_far r + 1) build_attempts)) [
          | inl under ↦ rw under (inr (ground (arith, under), rw (eq_refl r.name) refl))
          | inr over ↦ rw over (finish-Moves sql elapsed _ [])
        ]

    registered-Moves :
        (sql : String) (elapsed : ℕ) (artifact : Result (Option String))
        → Moves r
            (catch
              (answer artifact)
              (λ id. finish_schema (willing api) replica r sql elapsed none (artifacts_of id))
              (registration_failed (willing api) replica r sql elapsed)).trace
    unfolding catch answer
    registered-Moves sql elapsed (ok id) = finish-Moves sql elapsed none _
    registered-Moves sql elapsed (err e) = registration_failed-Moves sql elapsed e

    register-Moves :
        (target group rank : String) (elapsed : ℕ) (sql : String)
        → Moves r (register_schema (willing api) replica r target group rank elapsed sql).trace
    unfolding register_schema note ◌>>=◌
    register-Moves target group rank elapsed sql =
        cases-Moves r api.building.canopy _ _ (finish-Moves sql elapsed _ [])
          λ register. registered-Moves sql elapsed (register sql)

    settle_no_schema-Moves :
        (empty : EmptyBuild) (elapsed : ℕ)
        → (empty ≡ EmptyBuild.rebuild → attempts_so_far r + 1 < build_attempts)
        → Moves r (settle_no_schema (willing api) empty replica r elapsed).trace
    unfolding settle_no_schema record_build_attempt record_schema_build delete_build_job attempt try
        ◌>>=◌ outcome pure
    settle_no_schema-Moves EmptyBuild.rebuild elapsed h = inr (h refl, rw (eq_refl r.name) refl)
    settle_no_schema-Moves EmptyBuild.settle elapsed h = inl (rw (eq_refl r.name) refl)

    pub succeeded-Moves :
        (target group rank : String) (build : BuildStatus)
        → Moves r
            (by_outcome
              (willing api)
              BuildOutcome.succeeded
              replica
              r
              target
              group
              rank
              build).trace
    unfolding by_outcome note ◌>>=◌
    succeeded-Moves target group rank build =
        cases-Moves r api.building.taken_schema _ _
          (settle_no_schema-Moves _ build.elapsed_seconds (empty_build-rebuild _ _))
          (register-Moves target group rank build.elapsed_seconds)

    pub fail_build-Moves :
        (build : BuildStatus) → Moves r (fail_build (willing api) replica r build).trace
    unfolding fail_build record_schema_build delete_build_job attempt note try ◌>>=◌ outcome pure
    fail_build-Moves build = inl (rw (eq_refl r.name) refl)
