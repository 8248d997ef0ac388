-- ===== src/Server/Tokens.antt =====
-- Who may post a schema to the operator: `verify_build_token` of src/bin/operator.rs.
use postgres_restore_operato.Prelude.{
  ◌≡◌, refl, String, Bool, false, Option, none, some, ◌==◌, arith, if◌then◌else◌,
}
use postgres_restore_operato.Effects.{Result, ok, err}
use postgres_restore_operato.Jobs.{Entry, store_key, get_entry}
use postgres_restore_operato.Jobs.Store.{get_entry-store}
use postgres_restore_operato.Server.{
  Stores, Request, Cluster, verify_build_token, post_schema_build_results, route,
  post_snapshot_results, post_schema_migration_results, post_canopy_stats,
}

abbrev token_read : Result (Option String) → String → Bool
token_read (ok (some expected)) token = expected == token
token_read (ok none) token = false
token_read (err e) token = false

-- What a request puts in the store of schemas, by the key: the schema of a build that presents the token
-- that its Job was given.
abbrev pub delivers : Cluster → Request → String → Option Entry
delivers cluster (Request.schema_build_results namespace replica token body) key =
    if token_read (cluster.build_token namespace replica) token
    then (if store_key namespace replica == key
        then some (record { stored_at = cluster.now; payload = body })
        else none)
    else none
delivers cluster _ key = none

abbrev pub newer : Option Entry → Option Entry → Option Entry
newer none old = old
newer (some entry) old = some entry

verified-schema :
    (cluster : Cluster) (read : Result (Option String)) (stores : Stores)
    (namespace replica token body key : String)
    → get_entry key
        (verify_build_token read stores token
          (post_schema_build_results cluster stores namespace replica body)).0.schema_build_results
      ≡ newer
          (if token_read read token
            then (if store_key namespace replica == key
                then some (record { stored_at = cluster.now; payload = body })
                else none)
            else none)
          (get_entry key stores.schema_build_results)
unfolding verify_build_token post_schema_build_results
verified-schema cluster (err e) stores namespace replica token body key = refl
verified-schema cluster (ok none) stores namespace replica token body key = refl
verified-schema cluster (ok (some expected)) stores namespace replica token body key =
    ground
      (arith, get_entry-store stores.schema_build_results namespace replica body key cluster.now)

-- Whatever result is posted to the operator, and whatever the API answers meanwhile, the schema that is
-- held for a replica changes only to the body of a request that presents the token of the replica's
-- running build: a wrong token, a token that cannot be read, and the posts of other results leave it.
pub route-delivers :
    (cluster : Cluster) (stores : Stores) (request : Request) (key : String)
    → get_entry key (route cluster stores request).0.schema_build_results
      ≡ newer (delivers cluster request key) (get_entry key stores.schema_build_results)
unfolding route post_snapshot_results post_schema_migration_results post_canopy_stats
route-delivers cluster stores (Request.snapshot_results namespace replica body) key = refl
route-delivers cluster stores (Request.schema_migration_results namespace replica body) key = refl
route-delivers cluster stores (Request.canopy_stats namespace job body) key = refl
route-delivers cluster stores (Request.schema_build_results namespace replica token body) key =
    verified-schema cluster (cluster.build_token namespace replica) stores namespace replica token
      body key
