-- ===== src/Jobs.antt =====
-- Kubernetes Jobs as src/controllers/jobs.rs reads them, and the store of the results that they post
-- back. An i32 count of a Job's status is a natural number; an `Instant` is a count of nanoseconds.
pub mod Store
pub mod Refinement
pub mod Log
use postgres_restore_operato.Prelude.{
  slash_join, ℕ, zero, ◌+◌, ◌-◌, String, Bool, true, false, not, ◌&&◌, Option, none, some, List, [],
  ◌∷◌, ltb, ◌==◌, if◌then◌else◌, unwrap_or, any, filter, length,
}
use postgres_restore_operato.Types.{Timestamp, Condition}

pub record JobStatusFields : Type 0 where
  pub succeeded : Option ℕ
  pub failed : Option ℕ
  pub start_time : Option Timestamp
  pub completion_time : Option Timestamp
  pub conditions : Option (List Condition)

-- A Job of the `batch/v1` API: what the operator reads of it.
pub record Job : Type 0 where
  pub name : Option String
  pub restore_label : Option String
  pub creation_timestamp : Option Timestamp
  pub deletion_timestamp : Option Timestamp
  -- The annotation `pgro.bes.au/schema-build-posted`.
  pub receipt : Option String
  pub backoff_limit : Option ℕ
  pub status : Option JobStatusFields

pub data JobStatus : Type 0 where
  active succeeded failed : JobStatus

abbrev pub has_failed : Option (List Condition) → Bool
has_failed none = false
has_failed (some cs) = any (λ c. c.type_ == "Failed" && c.status == "True") cs

classify_status : Option JobStatusFields → ℕ → JobStatus
classify_status none backoff_limit = JobStatus.active
classify_status (some s) backoff_limit =
    if ltb 0 (unwrap_or s.succeeded 0)
    then JobStatus.succeeded
    else if ltb backoff_limit (unwrap_or s.failed 0)
    then JobStatus.failed
    else if has_failed s.conditions
    then JobStatus.failed
    else JobStatus.active

unfoldable pub classify_job : Job → JobStatus
unfolding classify_status
classify_job job = classify_status job.status (unwrap_or job.backoff_limit 0)

-- `job.status.succeeded` and `job.status.failed`, 0 where they are absent.
abbrev count_of : Option JobStatusFields → (JobStatusFields → Option ℕ) → ℕ
count_of none field = 0
count_of (some s) field = unwrap_or (field s) 0

abbrev pub succeeded_count : Job → ℕ
succeeded_count job = count_of job.status (λ s. s.succeeded)

abbrev pub failed_count : Job → ℕ
failed_count job = count_of job.status (λ s. s.failed)

pub record Entry : Type 0 where
  pub stored_at : ℕ
  pub payload : String

-- The map behind the mutex of a `CallbackStore`.
abbrev pub CallbackStore : Type 0
CallbackStore = List (String × Entry)

-- The key `{namespace}/{name}`.
unfoldable pub store_key : String → String → String
store_key = slash_join

unfoldable pub get_entry : String → CallbackStore → Option Entry
get_entry key [] = none
get_entry key ((k, e) ∷ s) = let rest = get_entry key s in if k == key then some e else rest

unfoldable pub remove_entry : String → CallbackStore → CallbackStore
remove_entry key = filter (λ e. not (e.0 == key))

unfoldable pub store : CallbackStore → String → String → String → ℕ → CallbackStore
unfolding store_key remove_entry
store s namespace name payload now =
    let key = store_key namespace name in
    (key, record { stored_at = now; payload = payload }) ∷ remove_entry key s

unfoldable pub take : CallbackStore → String → String → CallbackStore × Option String
unfolding store_key remove_entry get_entry
take s namespace name =
    let key = store_key namespace name in
    (remove_entry key s, elim (get_entry key s) [ none ↦ none | some e ↦ some e.payload ])

-- `sweep`: the store and how many entries went.
unfoldable pub sweep : CallbackStore → ℕ → ℕ → CallbackStore × ℕ
sweep s max_age now =
    let kept = filter (λ e. ltb (now - e.1.stored_at) max_age) s in (kept, length s - length kept)
