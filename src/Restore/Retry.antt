-- ===== src/Restore/Retry.antt =====
-- `fail_restore` of src/controllers/restore.rs: what is done whatever fails on the way.
use postgres_restore_operato.Prelude.{
  ℕ, suc, ◌+◌, ◌<◌, ◌^◌, ◌≡◌, refl, String, Bool, true, false, Option, none, some, List, [], ◌∷◌,
  ◌++◌, ◌∙◌, slash_join, unwrap_or, arith, Bool-cases, inl, inr,
}
use postgres_restore_operato.Types.{Timestamp, PostgresPhysicalReplica}
use postgres_restore_operato.Effects.{
  Error, Result, ok, err, Message, RestoreField, ReplicaField, Call, Trace, M, ◌>>=◌, try, note,
  attempt, if_ok, pure, outcome, Action, requeue,
}
use postgres_restore_operato.Scheduling.{secs, failure_backoff_delay}
use postgres_restore_operato.Scheduling.Backoff.{ladder, failure_backoff_delay_lem}
use postgres_restore_operato.Restore.{RestoreApi}
use postgres_restore_operato.Restore.Failure.{
  fail_restore, schedule_retry, report_failure, retry_patch, next_failure_count,
}

bind_result :
    {A B : Type 0} (m : M A) (f : A → M B) (a : A)
    → m.result ≡ ok a
    → (m >>= f).result ≡ (f a).result
unfolding ◌>>=◌
bind_result m f a h = rw h refl

if_ok_ok :
    {A : Type 0} (r : Result A) (f : A → M (Unit {0}))
    → ((a : A) → (f a).result ≡ ok tt)
    → (if_ok r f).result ≡ ok tt
unfolding if_ok pure
if_ok_ok (ok a) f h = h a
if_ok_ok (err e) f h = refl

abbrev failures : PostgresPhysicalReplica → ℕ
failures replica = unwrap_or replica.consecutive_restore_failures 0

-- One failure more still fits into 32 bits, where the replica can be read.
abbrev pub IsCountable : Result (Option PostgresPhysicalReplica) → Type 0
IsCountable (ok (some replica)) = failures replica + 1 < 2 ^ 32
IsCountable _ = Unit

-- The patch that counts a failure on a replica that can be read.
abbrev pub counted : Timestamp → String → Result (Option PostgresPhysicalReplica) → Trace
counted now replica_name (ok (some replica)) =
    let count = suc (failures replica) in
    Call.patch_replica replica_name (
      ReplicaField.consecutive_restore_failures count
      ∷ ReplicaField.next_scheduled_restore (some (now + secs (ladder count)))
      ∷ [])
    ∷ []
counted now replica_name _ = []

-- What a failure does, by whether the patch of the restore is accepted.
abbrev pub Retried :
    Timestamp
    → String
    → String
    → String
    → List RestoreField
    → Result (Option PostgresPhysicalReplica)
    → Bool
    → M Action
    → Type 0
Retried now namespace name replica_name fields read false m =
    (m.trace ≡ Call.patch_restore name fields ∷ []) × (m.result ≡ err Error.kube)
Retried now namespace name replica_name fields read true m =
    ((post : Trace) × (m.trace
        ≡ Call.patch_restore name fields
          ∷ Call.release_slot (slash_join namespace replica_name)
          ∷ (counted now replica_name read ++ (Call.count "restores_failed_total" ∷ post))))
    × (m.result ≡ ok (record { requeue = 300 }))

delay_lem : (n : ℕ) → failure_backoff_delay (suc n) ≡ some (secs (ladder (suc n)))
delay_lem n = ground (arith, failure_backoff_delay_lem (suc n))

retry_patch_lem :
    (now : Timestamp) (replica : PostgresPhysicalReplica)
    → failures replica + 1 < 2 ^ 32
    → retry_patch now (next_failure_count replica)
      ≡ ReplicaField.consecutive_restore_failures (suc (failures replica))
        ∷ ReplicaField.next_scheduled_restore (some (now + secs (ladder (suc (failures replica)))))
        ∷ []
retry_patch_lem now replica h =
    let exact : next_failure_count replica ≡ suc (failures replica) = omega arith in
    rw (exact, delay_lem (failures replica)) refl

module _ (api : RestoreApi) where
  report_failure_ok :
      (name replica_name : String) (error : Message)
      → (report_failure api name replica_name error).result ≡ ok tt
  unfolding report_failure note
  report_failure_ok name replica_name error = if_ok_ok _ _ λ restore. if_ok_ok _ _ λ replica. refl

  schedule_retry_ok : (replica_name : String) → (schedule_retry api replica_name).result ≡ ok tt
  unfolding schedule_retry attempt ◌>>=◌ pure
  schedule_retry_ok replica_name = if_ok_ok _ _ λ replica. refl

  fail_restore_ok :
      (namespace name replica_name : String) (fields : List RestoreField) (error : Message)
      → api.accepts (Call.patch_restore name fields) ≡ true
      → (fail_restore api namespace name replica_name fields error).result
        ≡ ok (record { requeue = 300 })
  unfolding fail_restore note attempt try outcome requeue pure
  fail_restore_ok namespace name replica_name fields error accepted =
      bind_result _ _ _ (rw accepted refl)
      ∙ bind_result _ _ _ refl
      ∙ bind_result _ _ _ (schedule_retry_ok replica_name)
      ∙ bind_result _ _ _ refl
      ∙ bind_result _ _ _ refl
      ∙ bind_result _ _ _ (report_failure_ok name replica_name error)

  module _ (namespace name replica_name : String) (fields : List RestoreField)
      (error : Message) where
    accepted-Retried :
        (read : Result (Option PostgresPhysicalReplica))
        → api.accepts (Call.patch_restore name fields) ≡ true
        → api.find_replica replica_name ≡ read
        → IsCountable read
        → Retried api.now namespace name replica_name fields read true
            (fail_restore api namespace name replica_name fields error)
    unfolding fail_restore schedule_retry ◌>>=◌ try note attempt if_ok pure outcome requeue
    accepted-Retried (err e) accepted there small = (
      (rw (accepted, there) (_, refl)),
      fail_restore_ok namespace name replica_name fields error accepted,
    )
    accepted-Retried (ok none) accepted there small = (
      (rw (accepted, there) (_, refl)),
      fail_restore_ok namespace name replica_name fields error accepted,
    )
    accepted-Retried (ok (some replica)) accepted there small = (
      (rw (accepted, there, retry_patch_lem api.now replica small) (_, refl)),
      fail_restore_ok namespace name replica_name fields error accepted,
    )

    refused-Retried :
        (read : Result (Option PostgresPhysicalReplica))
        → api.accepts (Call.patch_restore name fields) ≡ false
        → Retried api.now namespace name replica_name fields read false
            (fail_restore api namespace name replica_name fields error)
    unfolding fail_restore ◌>>=◌ try outcome
    refused-Retried read refused = (rw refused refl, rw refused refl)

    -- A failure whose patch is refused ends there, with an error. One whose patch is accepted goes on whatever else
    -- is refused or missing, and ends without an error: it releases the slot, and where the replica can be
    -- read, patches it to one failure in a row more (below 2 ^ 32 of them) and to a next restore that is put off
    -- by the step of the ladder for that number, from two minutes up to an hour; then it counts the failure.
    pub fail_restore-retries :
        IsCountable (api.find_replica replica_name)
        → Retried api.now namespace name replica_name fields
            (api.find_replica replica_name)
            (api.accepts (Call.patch_restore name fields))
            (fail_restore api namespace name replica_name fields error)
    fail_restore-retries small = elim (Bool-cases (api.accepts (Call.patch_restore name fields))) [
      | inl accepted ↦
          rw accepted (accepted-Retried (api.find_replica replica_name) accepted refl small)
      | inr refused ↦ rw refused (refused-Retried (api.find_replica replica_name) refused)
    ]
