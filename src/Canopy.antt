-- ===== src/Canopy.antt =====
-- The syncer of canopy's worklist: src/controllers/canopy.rs. The entries are reconciled one after the
-- other where the source runs up to eight at a time; what holds of each call holds of any interleaving.
pub mod Coverage
pub mod Report
pub mod Identity
pub mod Largest
use Prim.Native.String
use postgres_restore_operato.Prelude.{
  ℕ, String, Bool, true, false, not, ◌||◌, Option, none, some, List, [], ◌∷◌, any, filter, eqb,
  ◌==◌,
}
use postgres_restore_operato.Effects.{
  Error, Result, ok, err, Kind, Call, M, ◌>>=◌, ◌>>◌, pure, answer, try, branch, cases, catch,
  for_each,
}
use postgres_restore_operato.Slug.{slug}
use postgres_restore_operato.Intent.{WorklistEntry}

pub record CanopyApi : Type 0 where
  -- The worklist, where a canopy client is configured.
  pub worklist : Option (Result (List WorklistEntry))
  -- The names of the namespaces with the label `pgro.bes.au/managed-by=pgro-canopy`.
  pub namespaces : Result (List String)
  -- The status code of the API's error on a call, `none` where it is accepted.
  pub error_code : Call → Option ℕ
  pub restore_credentials : String → String → Result String
  -- `status.canopyDesiredSnapshotId` of the replica in a namespace.
  pub desired_snapshot : String → Result (Option String)
  -- The first four bytes of the SHA-256 of the identifiers, in hexadecimal.
  pub short_hash : String → String → Option String → String

abbrev per_pair : WorklistEntry → Option String
per_pair entry = elim (entry.intent == "reporting-schema") [
  | true ↦ entry.target_version_id
  | false ↦ none
]

-- The intents that `config_for` of src/controllers/canopy/intent.rs knows.
unfoldable pub is_supported : String → Bool
is_supported intent =
    intent == "verify"
    || (intent == "upgrade" || (intent == "analytics" || intent == "reporting-schema"))

abbrev accepted_or : ℕ → Option ℕ → Result (Unit {0})
accepted_or code none = ok tt
accepted_or code (some other) = elim (eqb other code) [ true ↦ ok tt | false ↦ err Error.kube ]

abbrev pub accepted : Option ℕ → Bool
accepted none = true
accepted (some code) = false

abbrev is_text : Option String → String → Bool
is_text none t = false
is_text (some s) t = s == t

-- A failure is logged, and leaves the others to go on.
unfoldable pub tolerate : M (Unit {0}) → M (Unit {0})
tolerate m = catch m pure (λ e. pure tt)

module _ (api : CanopyApi) where
  unfoldable pub namespace_name_for : WorklistEntry → String
  namespace_name_for entry =
      String.◌++◌ (slug entry.name)
        (String.◌++◌ "-" (api.short_hash entry.replica_id entry.server_id (per_pair entry)))

  -- A write for which one error code is as good as success: the object is there already, or gone already.
  unfoldable pub send_or : ℕ → Call → M (Unit {0})
  send_or code c = record { trace = c ∷ []; result = accepted_or code (api.error_code c) }

  abbrev send : Call → M (Unit {0})
  send c = try (λ call. accepted (api.error_code call)) c

  unfoldable pub ensure_namespace : String → M (Unit {0})
  ensure_namespace ns_name = send_or 409 (Call.create Kind.namespace ns_name)

  unfoldable pub set_desired_snapshot : String → Option String → M (Unit {0})
  set_desired_snapshot ns_name snapshot_id = cases snapshot_id (pure tt) λ desired.
      answer (api.desired_snapshot ns_name) >>= λ current.
      branch (is_text current desired) (pure tt) (send (Call.desire_snapshot ns_name desired))

  unfoldable pub reconcile_entry : String → WorklistEntry → M (Unit {0})
  reconcile_entry ns_name entry = branch (not (is_supported entry.intent)) (pure tt) do
    ensure_namespace ns_name
    answer (api.restore_credentials entry.type_ entry.group_id)
    send (Call.apply_canopy_secret ns_name)
    send (Call.apply_replica ns_name)
    set_desired_snapshot ns_name entry.snapshot_id

  unfoldable pub teardown : String → M (Unit {0})
  teardown ns_name = send_or 404 (Call.delete Kind.namespace ns_name)

  unfoldable pub sync_entry : WorklistEntry → M (Unit {0})
  sync_entry entry = tolerate (reconcile_entry (namespace_name_for entry) entry)

  abbrev pub covers : List WorklistEntry → String → Bool
  covers entries ns_name = any (λ entry. namespace_name_for entry == ns_name) entries

  unfoldable pub sync : List WorklistEntry → List String → M (Unit {0})
  sync entries namespaces =
      for_each sync_entry entries
      >> for_each (λ ns_name. tolerate (teardown ns_name))
          (filter (λ ns_name. not (covers entries ns_name)) namespaces)

  unfoldable pub tick : M (Unit {0})
  tick = cases api.worklist (pure tt) λ worklist. do
    entries ← answer worklist
    namespaces ← answer api.namespaces
    sync entries namespaces
