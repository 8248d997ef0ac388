-- ===== src/Notifications/Attempts.antt =====
-- How often a notification is sent, and to whom the password goes: src/notifications.rs and
-- `send_notifications` of src/controllers/replica/status.rs.
use postgres_restore_operato.Prelude.{
  ℕ, ◌+◌, ◌≤◌, ◌≡◌, refl, String, Bool, true, false, List, [], ◌∷◌, length, arith, leb, ◌&&◌,
  if◌then◌else◌,
}
use postgres_restore_operato.Effects.{Result, ok, err}
use postgres_restore_operato.Notifications.{
  NotificationConfig, WebhookConfig, GraphQlConfig, NotificationPayload, Request, NotificationApi,
  webhook, graph_ql, resolve_headers,
}
use postgres_restore_operato.Notifications.Sending.{
  answered, post_webhook, send_webhook, post_graphql, render_graphql, send_graphql, send_once,
  send_attempts, retry_delays, send_notification,
}

abbrev is_ok : Result (Unit {0}) → ℕ
is_ok (ok done) = 1
is_ok (err e) = 0

-- Whether an answer has a status of 200 to 299.
abbrev pub is_2xx : Result ℕ → ℕ
is_2xx (ok status) = if leb 200 status && leb status 299 then 1 else 0
is_2xx (err e) = 0

-- How many requests were answered so.
abbrev pub delivered : NotificationApi → List Request → ℕ
delivered api [] = 0
delivered api (r ∷ sent) = is_2xx (api.respond sent r) + delivered api sent

answered-is_2xx : (answer : Result ℕ) → is_2xx answer ≡ is_ok (answered answer)
answered-is_2xx (ok status) = ground arith
answered-is_2xx (err e) = refl

-- One try: it sends one request at most, and it is a success where that was answered well.
abbrev Tried : NotificationApi → List Request → List Request × Result (Unit {0}) → Type 0
Tried api sent (sent', result) =
    (length sent' ≤ 1 + length sent) × (delivered api sent' ≡ is_ok result + delivered api sent)

post_webhook-Tried :
    (api : NotificationApi) (config : WebhookConfig) (payload : NotificationPayload)
    (sent : List Request) (headers : Result (List (String × String)))
    → Tried api sent (post_webhook api config payload sent headers)
post_webhook-Tried api config payload sent (err e) = (omega arith, omega arith)
post_webhook-Tried api config payload sent (ok headers) = (omega arith, rw (answered-is_2xx _) refl)

post_graphql-Tried :
    (api : NotificationApi) (config : GraphQlConfig) (payload : NotificationPayload)
    (sent : List Request) (headers : List (String × String)) (body : Result String)
    → Tried api sent (post_graphql api config payload sent headers body)
post_graphql-Tried api config payload sent headers (err e) = (omega arith, omega arith)
post_graphql-Tried api config payload sent headers (ok body) =
    (omega arith, rw (answered-is_2xx _) refl)

render_graphql-Tried :
    (api : NotificationApi) (config : GraphQlConfig) (payload : NotificationPayload)
    (sent : List Request) (headers : Result (List (String × String)))
    → Tried api sent (render_graphql api config payload sent headers)
render_graphql-Tried api config payload sent (err e) = (omega arith, omega arith)
render_graphql-Tried api config payload sent (ok headers) =
    post_graphql-Tried api config payload sent headers (api.render config payload)

send_once-Tried :
    (api : NotificationApi) (config : NotificationConfig) (payload : NotificationPayload)
    (sent : List Request)
    → Tried api sent (send_once api config payload sent)
unfolding send_once send_webhook send_graphql
send_once-Tried api (webhook config) payload sent =
    post_webhook-Tried api config payload sent (resolve_headers api config.headers)
send_once-Tried api (graph_ql config) payload sent =
    render_graphql-Tried api config payload sent (resolve_headers api config.headers)

abbrev pub one_if : Bool → ℕ
one_if true = 1
one_if false = 0

send_attempts_lem :
    (api : NotificationApi) (config : NotificationConfig) (payload : NotificationPayload)
    (delays : List ℕ) (sent : List Request)
    → let (sent', success) = send_attempts api config payload delays sent in
      (length sent' ≤ length delays + length sent)
      × (delivered api sent' ≡ one_if success + delivered api sent)
unfolding send_attempts
send_attempts_lem api config payload [] sent = (omega arith, omega arith)
send_attempts_lem api config payload (delay ∷ delays) sent =
    let tried = send_once-Tried api config payload sent in
    let later = send_attempts_lem api config payload delays (send_once api config payload sent).0 in
    ground (arith, tried, later)

-- Whatever the endpoint answers, and when, a notification is sent five times at most; at most one of its
-- requests is answered with a status of 200 to 299, and its status is a success exactly where one is.
pub send_notification_lem :
    (api : NotificationApi) (config : NotificationConfig) (payload : NotificationPayload)
    (sent : List Request)
    → let (sent', status) = send_notification api config payload sent in
      (length sent' ≤ 5 + length sent)
      × (delivered api sent' ≡ one_if status.success + delivered api sent)
unfolding send_notification
send_notification_lem api config payload sent =
    send_attempts_lem api config payload retry_delays sent
