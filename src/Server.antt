-- ===== src/Server.antt =====
-- The HTTP server of the operator, src/bin/operator.rs: the callbacks to which Jobs post their results. A
-- handler takes the stores of results and gives them back, with the status code of its answer. What
-- the API answers while a request is handled is an argument.
pub mod Tokens
pub mod Broker
use postgres_restore_operato.Prelude.{
  ℕ, String, Bool, true, false, Option, none, some, ◌==◌, is_some,
}
use postgres_restore_operato.Types.{Timestamp}
use postgres_restore_operato.Effects.{Error, Result, ok, err}
use postgres_restore_operato.Jobs.{CallbackStore, store}

pub record Stores : Type 0 where
  pub snapshot_results : CallbackStore
  pub schema_migration_results : CallbackStore
  pub schema_build_results : CallbackStore
  pub canopy_stats : CallbackStore

pub data Request : Type 0 where
  snapshot_results schema_migration_results canopy_stats : String → String → String → Request
  -- Namespace, replica, token and schema.
  schema_build_results : String → String → String → String → Request

-- What the API answers: the token of the running build of a replica, and whether its receipt is recorded.
pub record Cluster : Type 0 where
  pub now : Timestamp
  pub build_token : String → String → Result (Option String)
  pub record_receipt : String → String → Result (Unit {0})

abbrev pub no_content : ℕ
no_content = 204

abbrev pub forbidden : ℕ
forbidden = 403

abbrev pub service_unavailable : ℕ
service_unavailable = 503

abbrev receipt_status : Result (Unit {0}) → ℕ
receipt_status (ok done) = no_content
receipt_status (err e) = service_unavailable

abbrev pub is_token : Option String → String → Bool
is_token none token = false
is_token (some expected) token = expected == token

unfoldable pub post_snapshot_results : Cluster → Stores → String → String → String → Stores × ℕ
post_snapshot_results cluster stores namespace replica body = (
  record stores {
    snapshot_results = store stores.snapshot_results namespace replica body cluster.now;
  },
  no_content,
)

unfoldable pub post_schema_migration_results :
    Cluster → Stores → String → String → String → Stores × ℕ
post_schema_migration_results cluster stores namespace replica body = (
  record stores {
    schema_migration_results =
        store stores.schema_migration_results namespace replica body cluster.now;
  },
  no_content,
)

unfoldable pub post_canopy_stats : Cluster → Stores → String → String → String → Stores × ℕ
post_canopy_stats cluster stores namespace job body = (
  record stores { canopy_stats = store stores.canopy_stats namespace job body cluster.now },
  no_content,
)

-- The schema is stored before its receipt is recorded.
unfoldable pub post_schema_build_results : Cluster → Stores → String → String → String → Stores × ℕ
post_schema_build_results cluster stores namespace replica body = (
  record stores {
    schema_build_results = store stores.schema_build_results namespace replica body cluster.now;
  },
  receipt_status (cluster.record_receipt namespace replica),
)

unfoldable pub verify_build_token :
    Result (Option String) → Stores → String → Stores × ℕ → Stores × ℕ
verify_build_token (ok expected) stores token next = elim (is_token expected token) [
  | true ↦ next
  | false ↦ (stores, forbidden)
]
verify_build_token (err e) stores token next = (stores, service_unavailable)

-- The routes of `build_router` that post results.
unfoldable pub route : Cluster → Stores → Request → Stores × ℕ
route cluster stores (Request.snapshot_results namespace replica body) =
    post_snapshot_results cluster stores namespace replica body
route cluster stores (Request.schema_migration_results namespace replica body) =
    post_schema_migration_results cluster stores namespace replica body
route cluster stores (Request.canopy_stats namespace job body) =
    post_canopy_stats cluster stores namespace job body
route cluster stores (Request.schema_build_results namespace replica token body) =
    verify_build_token (cluster.build_token namespace replica) stores token
      (post_schema_build_results cluster stores namespace replica body)
