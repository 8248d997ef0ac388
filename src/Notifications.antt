-- ===== src/Notifications.antt =====
-- Notifications of a switchover: src/notifications.rs and src/types/replica.rs. `NotificationApi` holds what the cluster and the HTTP servers answer; the
-- template renderer is an argument.
pub mod Sending
pub mod Attempts
pub mod Private
use Prim.Native.String
use postgres_restore_operato.Prelude.{
  ℕ, ◌+◌, String, Bool, true, false, ◌&&◌, Option, none, some, List, [], ◌∷◌, ◌++◌, ltb, leb, ◌==◌,
  if◌then◌else◌,
}
use postgres_restore_operato.Types.{Timestamp, PostgresPhysicalReplica, PostgresPhysicalRestore}
use postgres_restore_operato.Effects.{Error, Result, ok, err}

pub data HeaderValue : Type 0 where
  plain : String → HeaderValue
  -- The name and the key of a Secret.
  secret : String → String → HeaderValue

pub record WebhookConfig : Type 0 where
  pub url : String
  pub method : String
  pub headers : Option (List (String × HeaderValue))
  pub include_password : Bool

pub record GraphQlConfig : Type 0 where
  pub url : String
  pub mutation : String
  pub variables_template : String
  pub headers : Option (List (String × HeaderValue))
  pub include_password : Bool

pub data NotificationConfig : Type 0 where
  webhook : WebhookConfig → NotificationConfig
  graph_ql : GraphQlConfig → NotificationConfig

unfoldable pub config_name : NotificationConfig → String
config_name (webhook c) = String.◌++◌ c.method (String.◌++◌ " " c.url)
config_name (graph_ql c) = String.◌++◌ "GraphQL " c.url

unfoldable pub include_password : NotificationConfig → Bool
include_password (webhook c) = c.include_password
include_password (graph_ql c) = c.include_password

pub record NotificationPayload : Type 0 where
  pub timestamp : Timestamp
  pub replica : String
  pub namespace : String
  pub restore : String
  pub snapshot : String
  pub postgres_version : String
  pub host : String
  pub port : ℕ
  pub database : String
  pub username : String
  pub password_secret : String
  pub password : Option String

pub record NotificationStatus : Type 0 where
  pub name : String
  pub last_sent_at : Option Timestamp
  pub success : Bool
  pub last_error : Option String

-- A request, with the configuration it is sent for and what its body is made of. `body` is the text of a
-- rendered mutation, and absent where the payload itself is the body.
pub record Request : Type 0 where
  pub config : NotificationConfig
  pub put : Bool
  pub headers : List (String × String)
  pub payload : NotificationPayload
  pub body : Option String

pub record NotificationApi : Type 0 where
  pub now : Timestamp
  -- The data of a Secret, a value that is not UTF-8 as `none`.
  pub secret : String → Result (Option (List (String × Option String)))
  -- The status of the answer to a request, after those sent before it.
  pub respond : List Request → Request → Result ℕ
  -- The mutation and the variables that a template renders.
  pub render : GraphQlConfig → NotificationPayload → Result String
  pub to_uppercase : String → String

abbrev key_value : String → List (String × Option String) → Option (Option String)
key_value key [] = none
key_value key ((k, v) ∷ entries) =
    let rest = key_value key entries in if k == key then some v else rest

abbrev utf8_value : Option (Option String) → Result String
utf8_value none = err (Error.notification "secret missing key")
utf8_value (some none) = err (Error.notification "secret value not UTF-8")
utf8_value (some (some value)) = ok value

abbrev secret_value : String → Result (Option (List (String × Option String))) → Result String
secret_value key (err e) = err e
secret_value key (ok none) = err (Error.notification "secret has no data")
secret_value key (ok (some entries)) = utf8_value (key_value key entries)

abbrev header_value : NotificationApi → HeaderValue → Result String
header_value api (plain s) = ok s
header_value api (secret name key) = secret_value key (api.secret name)

abbrev with_header :
    String → Result String → Result (List (String × String)) → Result (List (String × String))
with_header key (err e) rest = err e
with_header key (ok value) (err e) = err e
with_header key (ok value) (ok rest) = ok ((key, value) ∷ rest)

unfoldable pub header_list :
    NotificationApi → List (String × HeaderValue) → Result (List (String × String))
header_list api [] = ok []
header_list api ((key, value) ∷ headers) =
    with_header key (header_value api value) (header_list api headers)

unfoldable pub resolve_headers :
    NotificationApi → Option (List (String × HeaderValue)) → Result (List (String × String))
unfolding header_list
resolve_headers api none = ok []
resolve_headers api (some headers) = header_list api headers
