-- ===== src/Intent.antt =====
-- What canopy asks of a replica: src/controllers/canopy/intent.rs. `config_for` gives the fixed part of an
-- intent, and `to_replica_spec` merges the parameters of a worklist entry over it. `trim` is `str::trim`.
pub mod Resources
use Prim.Native.String
use postgres_restore_operato.Prelude.{
  ℕ, String, Bool, true, false, Option, none, some, List, [], ◌∷◌, map, ◌==◌, is_empty,
  if◌then◌else◌,
}
use postgres_restore_operato.Labels.{Labels}
use postgres_restore_operato.Types.{
  Quantity, MigrationTarget, CanopySource, ExtraUserSpec, RedactionSpec,
}
use postgres_restore_operato.Split.{split_once}
use postgres_restore_operato.Placement.{entries, entries_at}
use postgres_restore_operato.Intent.Resources.{
  Params, ResourceRequirements, param_i64, param_bool, param_str, resolve_resources,
}

-- An entry of the worklist: what the syncer reads of it. A UUID is its text.
pub record WorklistEntry : Type 0 where
  pub name : String
  pub replica_id : String
  pub server_id : String
  pub group_id : String
  pub type_ : String
  pub intent : String
  pub target_version : Option String
  pub target_version_id : Option String
  pub rank : Option String
  pub snapshot_id : Option String
  pub params : Params

pub data TimeSpan : Type 0 where
  minutes : ℕ → TimeSpan
  -- A number of seconds, as the text of an `i64`.
  seconds : String → TimeSpan

pub record IntentConfig : Type 0 where
  pub resources_floor : Option ResourceRequirements
  pub resources_maximum : Quantity
  pub deployment_ready_timeout : Option TimeSpan
  pub read_only : Bool
  pub minimum_ttl : Option TimeSpan
  pub switchover_grace_period : TimeSpan
  pub persistent_schemas : Option (List String)
  pub storage_size_override : Quantity
  pub storage_size_maximum : Quantity
  pub ephemeral : Bool
  pub shm_size_floor : Option Quantity

-- What `to_replica_spec` sets of a `PostgresPhysicalReplicaSpec`; the fields that it leaves empty are
-- left out.
pub record PostgresPhysicalReplicaSpec : Type 0 where
  pub canopy_source : Option CanopySource
  pub schedule : String
  pub schedule_jitter : TimeSpan
  pub minimum_ttl : Option TimeSpan
  pub switchover_grace_period : TimeSpan
  pub analytics_username : String
  pub extra_users : List ExtraUserSpec
  pub storage_size_override : Option Quantity
  pub resources : Option ResourceRequirements
  pub resources_floor : Option ResourceRequirements
  pub resources_maximum : Option Quantity
  pub deployment_ready_timeout : Option TimeSpan
  pub shm_size_floor : Option Quantity
  pub service_annotations : Option Labels
  pub read_only : Bool
  pub ephemeral : Bool
  pub persistent_schemas : Option (List String)
  pub pre_migrate_drop_schemas : Option (List String)
  pub pre_migrate_sql : Option String
  pub migrate_to : Option MigrationTarget
  pub builder_image : Option String
  pub rank : Option String
  pub redaction : Option RedactionSpec
  pub storage_size_maximum : Quantity

abbrev cpu_limit : Option String → Labels → Labels
cpu_limit none limits = limits
cpu_limit (some cpu) limits = ("cpu", cpu) ∷ limits

-- The floor of an intent, in the order of the source's arguments.
unfoldable pub floor : String → String → Option String → String → ResourceRequirements
floor cpu_req mem_req cpu_lim mem_lim = record {
  requests = some (("cpu", cpu_req) ∷ ("memory", mem_req) ∷ []);
  limits = some (cpu_limit cpu_lim (("memory", mem_lim) ∷ []));
}

abbrev verify_config : IntentConfig
verify_config = record {
  resources_floor = some (floor "250m" "512Mi" (some "2") "2Gi");
  resources_maximum = "8Gi";
  deployment_ready_timeout = none;
  read_only = true;
  minimum_ttl = none;
  switchover_grace_period = TimeSpan.minutes 5;
  persistent_schemas = none;
  storage_size_override = "20Gi";
  storage_size_maximum = "2Ti";
  ephemeral = true;
  shm_size_floor = some "512Mi";
}

abbrev analytics_config : IntentConfig
analytics_config = record {
  resources_floor = some (floor "500m" "2Gi" none "8Gi");
  resources_maximum = "64Gi";
  deployment_ready_timeout = none;
  read_only = true;
  minimum_ttl = some (TimeSpan.seconds "7200");
  switchover_grace_period = TimeSpan.seconds "120";
  persistent_schemas = none;
  storage_size_override = "50Gi";
  storage_size_maximum = "2Ti";
  ephemeral = false;
  shm_size_floor = none;
}

abbrev reporting_schema_config : IntentConfig
reporting_schema_config = record verify_config {
  resources_floor = some (floor "500m" "2Gi" none "8Gi");
  resources_maximum = "16Gi";
}

unfoldable pub config_for : String → Option IntentConfig
config_for intent =
    if intent == "verify"
    then some verify_config
    else (if intent == "upgrade"
        then some verify_config
        else (if intent == "analytics"
            then some analytics_config
            else (if intent == "reporting-schema" then some reporting_schema_config else none)))

abbrev pub or_else : {A : Type 0} → Option A → Option A → Option A
or_else none other = other
or_else (some a) other = some a

abbrev unwrap_or : {A : Type 0} → Option A → A → A
unwrap_or none other = other
unwrap_or (some a) other = a

abbrev map_some : {A B : Type 0} → (A → B) → Option A → Option B
map_some f none = none
map_some f (some a) = some (f a)

-- `.map(str::trim).filter(|s| !s.is_empty())`.
abbrev trimmed : (String → String) → Option String → Option String
trimmed trim none = none
trimmed trim (some s) = if trim s == "" then none else some (trim s)

-- `.map(parse_comma_list).filter(|schemas| !schemas.is_empty())`.
abbrev some_items : (String → String) → Option String → Option (List String)
some_items trim none = none
some_items trim (some raw) = if is_empty (entries trim raw) then none else some (entries trim raw)

unfoldable pub redaction_by : Option String → Option String → Bool → Option RedactionSpec
redaction_by none query fallback = none
redaction_by (some url) query fallback = some (record {
  manifest_url = url;
  version = none;
  version_query = query;
  version_fallback_to_base = fallback;
})

unfoldable pub redaction_spec : (String → String) → Params → Option RedactionSpec
redaction_spec trim p =
    redaction_by (trimmed trim (param_str p "redaction_manifest_url"))
      (trimmed trim (param_str p "redaction_version_query"))
      (unwrap_or (param_bool p "redaction_version_fallback_to_base") false)

abbrev extra_user : (String → String) → String → Option (String × String) → ExtraUserSpec
extra_user trim entry none = record { name = entry; schemas = [] }
extra_user trim entry (some (name, schemas)) = record {
  name = trim name;
  schemas = entries_at 43 trim schemas;
}

-- Items `name` or `name:schemas`, the schemas with `+` between them.
unfoldable pub parse_extra_users : (String → String) → String → List ExtraUserSpec
parse_extra_users trim raw =
    map (λ entry. extra_user trim entry (split_once 58 entry)) (entries trim raw)

unfoldable pub exposed_hostname : String → String
exposed_hostname entry_name = String.◌++◌ "infra-replica-" entry_name

abbrev expose_annotations : String → Labels
expose_annotations entry_name =
    ("tailscale.com/expose", "true") ∷ ("tailscale.com/hostname", exposed_hostname entry_name) ∷ []

unfoldable pub is_exposed : WorklistEntry → Bool
is_exposed entry = unwrap_or (param_bool entry.params "expose") false

-- The version that canopy names on the entry, with its identifier.
abbrev named_target : Option String → Option String → Option MigrationTarget
named_target (some version) (some id) = some (record { version = version; version_id = id })
named_target _ _ = none

abbrev chosen_target : String → MigrationTarget
chosen_target version = record { version = version; version_id = "" }

unfoldable pub migrate_to_of : (String → String) → WorklistEntry → Option MigrationTarget
migrate_to_of trim entry =
    or_else (named_target entry.target_version entry.target_version_id)
      (map_some chosen_target (trimmed trim (param_str entry.params "migrate_to")))

unfoldable pub to_replica_spec :
    (String → String) → IntentConfig → WorklistEntry → PostgresPhysicalReplicaSpec
to_replica_spec trim config entry =
    let p = entry.params in
    let (pinned_resources, resources_floor) = resolve_resources p config.resources_floor in
    record {
      canopy_source = some (record { group = entry.group_id; backup_type = entry.type_ });
      schedule = "H * * * *";
      schedule_jitter = TimeSpan.minutes 10;
      minimum_ttl =
          or_else (map_some TimeSpan.seconds (param_i64 p "minimum_ttl")) config.minimum_ttl;
      switchover_grace_period =
          unwrap_or (map_some TimeSpan.seconds (param_i64 p "switchover_grace"))
            config.switchover_grace_period;
      analytics_username = "analytics";
      extra_users = unwrap_or (map_some (parse_extra_users trim) (param_str p "extra_users")) [];
      storage_size_override = some config.storage_size_override;
      resources = pinned_resources;
      resources_floor = resources_floor;
      resources_maximum =
          some (unwrap_or (param_i64 p "resources_maximum") config.resources_maximum);
      deployment_ready_timeout =
          or_else (map_some TimeSpan.seconds (param_i64 p "deployment_ready_timeout"))
            config.deployment_ready_timeout;
      shm_size_floor = config.shm_size_floor;
      service_annotations = if is_exposed entry then some (expose_annotations entry.name) else none;
      read_only = config.read_only;
      ephemeral = config.ephemeral;
      persistent_schemas =
          or_else (some_items trim (param_str p "persistent_schemas")) config.persistent_schemas;
      pre_migrate_drop_schemas = some_items trim (param_str p "pre_migrate_drop_schemas");
      pre_migrate_sql = trimmed trim (param_str p "pre_migrate_sql");
      migrate_to = migrate_to_of trim entry;
      builder_image = trimmed trim (param_str p "builder_image");
      rank = entry.rank;
      redaction = redaction_spec trim p;
      storage_size_maximum =
          unwrap_or (param_i64 p "storage_size_maximum") config.storage_size_maximum;
    }
