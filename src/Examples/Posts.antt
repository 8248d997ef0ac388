-- ===== src/Examples/Posts.antt =====
-- The operator's HTTP server, the placement of its pods and the parameters of an intent at concrete
-- inputs: src/bin/operator.rs, src/placement.rs and src/controllers/canopy/intent.rs.
use postgres_restore_operato.Prelude.{◌≡◌, refl, true, String, none, some, List, [], ◌∷◌, All}
use postgres_restore_operato.Effects.{ok, err, Error}
use postgres_restore_operato.Jobs.{get_entry}
use postgres_restore_operato.Server.{Stores, Request, Cluster, route}
use postgres_restore_operato.Server.Tokens.{delivers, newer, route-delivers}
use postgres_restore_operato.Server.Broker.{Asked, answers, Good, answers-Good}
use postgres_restore_operato.Split.{split, split_once}
use postgres_restore_operato.Placement.{PodPlacement, PodTemplate, entries}
use postgres_restore_operato.Intent.{parse_extra_users, floor}
use postgres_restore_operato.Intent.Resources.{
  Value, Params, resolve_resources, Sized, resolve_resources-Sized,
}

abbrev no_results : Stores
no_results = record {
  snapshot_results = [];
  schema_migration_results = [];
  schema_build_results = [];
  canopy_stats = [];
}

abbrev building : Cluster
building = record {
  now = 7;
  build_token = λ ns r. ok (some "token");
  record_receipt = λ ns r. ok tt;
}

abbrev a_post : Request
a_post = Request.schema_build_results "ns" "r" "token" "create schema s"

route-delivers_example :
    get_entry "ns/r" (route building no_results a_post).0.schema_build_results
    ≡ newer (delivers building a_post "ns/r") (get_entry "ns/r" [])
route-delivers_example = route-delivers building no_results a_post "ns/r"

abbrev two_requests : List Asked
two_requests =
    (record {
      key = "g";
      now = 0;
      restore_credentials = ok (record { body = "a"; expiration = 900000000000 });
    })
    ∷ (record { key = "g"; now = 5; restore_credentials = err Error.http })
    ∷ []

answers-Good_example : All Good (answers true [] two_requests)
answers-Good_example = answers-Good true two_requests

abbrev on_replica_nodes : PodPlacement
on_replica_nodes = record {
  node_selector = ("pool", "replica") ∷ [];
  annotations = [];
  tolerations =
      (record {
        key = some "replica";
        operator = some "Exists";
        value = none;
        effect = some "NoSchedule";
        toleration_seconds = none;
      })
      ∷ [];
}

abbrev a_template : PodTemplate
a_template = record { node_selector = ("pool", "own") ∷ []; annotations = []; tolerations = [] }

abbrev as_is : String → String
as_is s = s

abbrev memory_params : Params
memory_params = ("memory_limit", Value.integer "1024") ∷ ("cpu_request", Value.text "2") ∷ []

resolve_resources-Sized_example :
    Sized memory_params
      (some (floor "500m" "2Gi" none "8Gi"))
      (resolve_resources memory_params (some (floor "500m" "2Gi" none "8Gi")))
resolve_resources-Sized_example =
    resolve_resources-Sized memory_params (some (floor "500m" "2Gi" none "8Gi"))

-- `reporting,dbt_reader:dbt+staging`, the example of the source.
parsed_users :
    parse_extra_users as_is "reporting,dbt_reader:dbt+staging"
    ≡ record { name = "reporting"; schemas = [] }
      ∷ record { name = "dbt_reader"; schemas = "dbt" ∷ "staging" ∷ [] }
      ∷ []
unfolding parse_extra_users entries split split_once
parsed_users = refl
