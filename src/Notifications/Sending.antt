-- ===== src/Notifications/Sending.antt =====
-- How notifications are sent: src/notifications.rs, and `send_notifications` of src/controllers/replica/status.rs.
use Prim.Native.String
use postgres_restore_operato.Prelude.{
  ℕ, String, Bool, true, false, ◌&&◌, Option, none, some, List, [], ◌∷◌, ltb, leb, ◌==◌,
  if◌then◌else◌,
}
use postgres_restore_operato.Types.{PostgresPhysicalReplica, PostgresPhysicalRestore}
use postgres_restore_operato.Effects.{Error, Result, ok, err}
use postgres_restore_operato.Notifications.{
  WebhookConfig, GraphQlConfig, NotificationConfig, webhook, graph_ql, config_name,
  include_password, NotificationPayload, NotificationStatus, Request, NotificationApi, key_value,
  resolve_headers,
}

abbrev pub answered : Result ℕ → Result (Unit {0})
answered (err e) = err e
answered (ok status) =
    if leb 200 status && ltb status 300
    then ok tt
    else err (Error.notification "endpoint returned an error status")

-- The requests sent, newest first, and whether the last one was answered well.
abbrev pub post : NotificationApi → List Request → Request → List Request × Result (Unit {0})
post api sent request = (request ∷ sent, answered (api.respond sent request))

abbrev pub post_webhook :
    NotificationApi
    → WebhookConfig
    → NotificationPayload
    → List Request
    → Result (List (String × String))
    → List Request × Result (Unit {0})
post_webhook api config payload sent (err e) = (sent, err e)
post_webhook api config payload sent (ok headers) = post api sent (record {
  config = webhook config;
  put = api.to_uppercase config.method == "PUT";
  headers = headers;
  payload = payload;
  body = none;
})

unfoldable pub send_webhook :
    NotificationApi
    → WebhookConfig
    → NotificationPayload
    → List Request
    → List Request × Result (Unit {0})
send_webhook api config payload sent =
    post_webhook api config payload sent (resolve_headers api config.headers)

abbrev pub post_graphql :
    NotificationApi
    → GraphQlConfig
    → NotificationPayload
    → List Request
    → List (String × String)
    → Result String
    → List Request × Result (Unit {0})
post_graphql api config payload sent headers (err e) = (sent, err e)
post_graphql api config payload sent headers (ok body) = post api sent (record {
  config = graph_ql config;
  put = false;
  headers = headers;
  payload = payload;
  body = some body;
})

abbrev pub render_graphql :
    NotificationApi
    → GraphQlConfig
    → NotificationPayload
    → List Request
    → Result (List (String × String))
    → List Request × Result (Unit {0})
render_graphql api config payload sent (err e) = (sent, err e)
render_graphql api config payload sent (ok headers) =
    post_graphql api config payload sent headers (api.render config payload)

unfoldable pub send_graphql :
    NotificationApi
    → GraphQlConfig
    → NotificationPayload
    → List Request
    → List Request × Result (Unit {0})
send_graphql api config payload sent =
    render_graphql api config payload sent (resolve_headers api config.headers)

unfoldable pub send_once :
    NotificationApi
    → NotificationConfig
    → NotificationPayload
    → List Request
    → List Request × Result (Unit {0})
send_once api (webhook config) payload sent = send_webhook api config payload sent
send_once api (graph_ql config) payload sent = send_graphql api config payload sent

-- In seconds, the delay before each attempt.
abbrev pub retry_delays : List ℕ
retry_delays = 0 ∷ 30 ∷ 120 ∷ 600 ∷ 3600 ∷ []

-- The attempts: one for each delay, until one succeeds.
unfoldable pub send_attempts :
    NotificationApi
    → NotificationConfig
    → NotificationPayload
    → List ℕ
    → List Request
    → List Request × Bool
send_attempts api config payload [] sent = (sent, false)
send_attempts api config payload (delay ∷ delays) sent =
    let (sent', result) = send_once api config payload sent in
    let later = send_attempts api config payload delays sent' in
    elim result [ ok done ↦ (sent', true) | err e ↦ later ]

abbrev pub status_of : NotificationApi → NotificationConfig → Bool → NotificationStatus
status_of api config success = record {
  name = config_name config;
  last_sent_at = some api.now;
  success = success;
  last_error = if success then none else some "max retries exhausted";
}

unfoldable pub send_notification :
    NotificationApi
    → NotificationConfig
    → NotificationPayload
    → List Request
    → List Request × NotificationStatus
send_notification api config payload sent =
    let (sent', success) = send_attempts api config payload retry_delays sent in
    (sent', status_of api config success)

abbrev password_in : Result (Option (List (String × Option String))) → Option String
password_in (err e) = none
password_in (ok none) = none
password_in (ok (some entries)) = elim (key_value "password" entries) [
  | none ↦ none
  | some none ↦ some ""
  | some (some value) ↦ some value
]

-- Without `include_password` there is none.
unfoldable pub password_for : NotificationApi → String → NotificationConfig → Option String
password_for api creds_secret_name config =
    if include_password config then password_in (api.secret creds_secret_name) else none

abbrev or_empty : Option String → String
or_empty none = ""
or_empty (some s) = s

unfoldable pub payload_for :
    NotificationApi
    → String
    → PostgresPhysicalReplica
    → PostgresPhysicalRestore
    → NotificationConfig
    → NotificationPayload
unfolding password_for
payload_for api namespace replica restore config =
    let creds_secret_name = String.◌++◌ replica.name "-creds" in
    record {
      timestamp = api.now;
      replica = replica.name;
      namespace = namespace;
      restore = restore.name;
      snapshot = restore.snapshot;
      postgres_version = or_empty restore.postgres_version;
      host =
          String.◌++◌ replica.name (String.◌++◌ "." (String.◌++◌ namespace ".svc.cluster.local"));
      port = 5432;
      database = "postgres";
      username = replica.analytics_username;
      password_secret = creds_secret_name;
      password = password_for api creds_secret_name config;
    }

-- The requests sent, newest first, and the statuses, one for each configuration.
unfoldable pub send_notifications :
    NotificationApi
    → String
    → PostgresPhysicalReplica
    → PostgresPhysicalRestore
    → List NotificationConfig
    → List Request
    → List Request × List NotificationStatus
send_notifications api namespace replica restore [] sent = (sent, [])
send_notifications api namespace replica restore (config ∷ configs) sent =
    let (sent', status) =
      send_notification api config (payload_for api namespace replica restore config) sent in
    let (sent'', statuses) = send_notifications api namespace replica restore configs sent' in
    (sent'', status ∷ statuses)
