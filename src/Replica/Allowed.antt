-- ===== src/Replica/Allowed.antt =====
-- What one reconcile of src/controllers/replica.rs may do to restores, Jobs, the queue and the Service.
use postgres_restore_operato.Prelude.{
  ◌≡◌, String, Bool, true, false, not, ◌&&◌, ◌||◌, Option, none, some, List, [], ◌∷◌, ◌==◌, arith,
  eq_refl, any, find, filter, length, leb, All, find-eq_some, any-find, is_some, is_none,
  Bool-cases, inl, inr,
}
use postgres_restore_operato.Types.{PostgresPhysicalReplica, PostgresPhysicalRestore}
use postgres_restore_operato.Effects.{Result, ok, err, Kind, Call, M}
use postgres_restore_operato.Effects.Emits.{Emits, emits, bind-Emits, attempt-Emits, pure-Emits}
use postgres_restore_operato.Queue.{can_start}
use postgres_restore_operato.Replica.{
  ReplicaApi, is_active, is_switching, is_failed, restore_in_progress, none_or,
}
use postgres_restore_operato.Replica.Switchover.{tear_down}
use postgres_restore_operato.Replica.Redaction.Succeeds.{is_redacted, run_succeeds}
use postgres_restore_operato.Replica.Passing.{migration_settled}
use postgres_restore_operato.Replica.Build.Settles.{is_over}
use postgres_restore_operato.Replica.Sweep.{delete_restores}
use postgres_restore_operato.Replica.Snapshots.{max_restores_per_replica}

abbrev pub Restores : Type 0
Restores = List PostgresPhysicalRestore

abbrev is_current : Option String → PostgresPhysicalRestore → Bool
is_current none r = false
is_current (some current) r = r.name == current

-- A restore that may go: a failed one, or an active one that is not the replica's current restore; of an
-- ephemeral replica any active one.
abbrev pub removable : PostgresPhysicalReplica → PostgresPhysicalRestore → Bool
removable replica r =
    is_failed r
    || (is_active r && (replica.ephemeral || not (is_current replica.current_restore r)))

-- The redaction is done, where the replica asks for one.
abbrev pub redaction_passed : ReplicaApi → PostgresPhysicalReplica → PostgresPhysicalRestore → Bool
redaction_passed api replica r =
    none_or (λ spec. is_redacted replica.redaction_phase || run_succeeds api replica spec r.name)
      replica.redaction

-- The schema migration is done, where the replica asks for one.
abbrev pub migration_passed :
    ReplicaApi
    → PostgresPhysicalReplica
    → Option PostgresPhysicalRestore
    → PostgresPhysicalRestore
    → Bool
migration_passed api replica active r =
    is_none replica.persistent_schemas
    || migration_settled api replica active replica.persistent_schemas

abbrev pub gates_passed :
    ReplicaApi
    → PostgresPhysicalReplica
    → Option PostgresPhysicalRestore
    → PostgresPhysicalRestore
    → Bool
gates_passed api replica active r =
    redaction_passed api replica r && (migration_passed api replica active r && is_over r)

abbrev pub has_room : Result Restores → Bool
has_room (ok existing) =
    not (leb max_restores_per_replica (length (filter (λ r. not (is_failed r)) existing)))
has_room (err e) = false

abbrev pub named : (PostgresPhysicalRestore → Bool) → String → Restores → Bool
named p name restores = any (λ r. r.name == name && p r) restores

abbrev pub Allowed : ReplicaApi → PostgresPhysicalReplica → Restores → Call → Type 0
Allowed api replica restores (Call.delete Kind.restore n) =
    named (removable replica) n restores ≡ true
Allowed api replica restores (Call.create Kind.restore n) = has_room api.restores_now ≡ true
Allowed api replica restores (Call.create Kind.job n) =
    (any restore_in_progress restores ≡ false)
    × (can_start api.queue api.max_concurrent_restores ≡ true)
Allowed api replica restores (Call.enqueue_slot key) =
    (any restore_in_progress restores ≡ false)
    × (can_start api.queue api.max_concurrent_restores ≡ false)
Allowed api replica restores (Call.select_service service n) =
    named (λ r. is_switching r && gates_passed api replica (find is_active restores) r) n restores
    ≡ true
Allowed api replica restores (Call.redact n) =
    (named is_switching n restores ≡ true) × (is_some replica.redaction ≡ true)
Allowed api replica restores (Call.create Kind.migration_job n) =
    any (λ r. is_switching r && redaction_passed api replica r) restores ≡ true
Allowed api replica restores (Call.drop_schemas n schemas) =
    named (λ r. is_switching r && redaction_passed api replica r) n restores ≡ true
Allowed api replica restores (Call.scale n count) =
    named (λ r. is_switching r || is_active r) n restores ≡ true
Allowed api replica restores (Call.create Kind.build_job n) =
    any
      (λ r.
        is_switching r
        && (redaction_passed api replica r
            && migration_passed api replica (find is_active restores) r))
      restores
    ≡ true
Allowed api replica restores _ = Unit

named_cons :
    (q : PostgresPhysicalRestore → Bool) (x : PostgresPhysicalRestore) (xs ys : Restores)
    → All (λ r. named q r.name xs ≡ true) ys
    → All (λ r. named q r.name (x ∷ xs) ≡ true) ys
named_cons q x xs [] h = tt
named_cons q x xs (y ∷ ys) (h, k) = (ground arith, named_cons q x xs ys k)

-- What a filter lets through is there, and passes every test that the filter implies.
pub All-filter-named :
    (p q : PostgresPhysicalRestore → Bool) (xs : Restores)
    → ((r : PostgresPhysicalRestore) → p r ≡ true → q r ≡ true)
    → All (λ r. named q r.name xs ≡ true) (filter p xs)
All-filter-named p q [] h = tt
All-filter-named p q (x ∷ xs) h =
    let rest = named_cons q x xs (filter p xs) (All-filter-named p q xs h) in
    elim (Bool-cases (p x)) [
      | inl here ↦ rw here (ground (arith, h x here, eq_refl x.name), rest)
      | inr other ↦ rw other rest
    ]

module _ (api : ReplicaApi) (replica : PostgresPhysicalReplica) (restores : Restores) where
  abbrev pub May : {A : Type 0} → M A → Type 0
  May m = Emits (Allowed api replica restores) m

  pub tear_down-May :
      (active : PostgresPhysicalRestore) (namespace : String)
      → find is_active restores ≡ some active
      → replica.ephemeral ≡ true
      → May (tear_down api replica active namespace)
  unfolding tear_down
  tear_down-May active namespace h e =
      let gone : named (removable replica) active.name restores ≡ true =
        any-find is_active (λ r. r.name == active.name && removable replica r) restores active h
          (ground (arith, find-eq_some is_active restores active h, e, eq_refl active.name)) in
      search emits depth 20

  pub delete_restores-May :
      (rs : Restores)
      → All (λ r. named (removable replica) r.name restores ≡ true) rs
      → May (delete_restores api rs)
  unfolding delete_restores
  delete_restores-May [] h = search emits
  delete_restores-May (r ∷ rs) (h, k) =
      let rest = delete_restores-May rs k in
      bind-Emits _ _ (attempt-Emits _ _ h) λ deleted. bind-Emits _ _ rest λ others. pure-Emits _
