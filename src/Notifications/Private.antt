-- ===== src/Notifications/Private.antt =====
-- To whom the password of the analytics user goes: `send_notifications` of src/controllers/replica/status.rs and
-- src/notifications.rs.
use postgres_restore_operato.Prelude.{
  ℕ, ◌≡◌, refl, ap, sym, ◌∙◌, ◌⊎◌, inl, inr, String, true, none, List, [], ◌∷◌, All, arith,
  Bool-cases,
}
use postgres_restore_operato.Types.{PostgresPhysicalReplica, PostgresPhysicalRestore}
use postgres_restore_operato.Effects.{Result, ok, err}
use postgres_restore_operato.Notifications.{
  NotificationConfig, WebhookConfig, GraphQlConfig, NotificationPayload, Request, NotificationApi,
  webhook, graph_ql, include_password, resolve_headers,
}
use postgres_restore_operato.Notifications.Sending.{
  post_webhook, send_webhook, post_graphql, render_graphql, send_graphql, send_once, send_attempts,
  retry_delays, send_notification, password_for, payload_for, send_notifications,
}

module _ (api : NotificationApi) (P : Request → Type 0) (config : NotificationConfig)
    (payload : NotificationPayload)
    (own : (r : Request) → r.config ≡ config → r.payload ≡ payload → P r) where
  post_webhook-All :
      (c : WebhookConfig) (sent : List Request) (headers : Result (List (String × String)))
      → webhook c ≡ config
      → All P sent
      → All P (post_webhook api c payload sent headers).0
  post_webhook-All c sent (err e) same h = h
  post_webhook-All c sent (ok headers) same h = (own _ same refl, h)

  post_graphql-All :
      (c : GraphQlConfig) (sent : List Request) (headers : List (String × String))
      (body : Result String)
      → graph_ql c ≡ config
      → All P sent
      → All P (post_graphql api c payload sent headers body).0
  post_graphql-All c sent headers (err e) same h = h
  post_graphql-All c sent headers (ok body) same h = (own _ same refl, h)

  render_graphql-All :
      (c : GraphQlConfig) (sent : List Request) (headers : Result (List (String × String)))
      → graph_ql c ≡ config
      → All P sent
      → All P (render_graphql api c payload sent headers).0
  render_graphql-All c sent (err e) same h = h
  render_graphql-All c sent (ok headers) same h =
      post_graphql-All c sent headers (api.render c payload) same h

  send_once-All :
      (c : NotificationConfig) (sent : List Request)
      → c ≡ config
      → All P sent
      → All P (send_once api c payload sent).0
  unfolding send_once send_webhook send_graphql
  send_once-All (webhook c) sent same h =
      post_webhook-All c sent (resolve_headers api c.headers) same h
  send_once-All (graph_ql c) sent same h =
      render_graphql-All c sent (resolve_headers api c.headers) same h

  send_attempts-All :
      (delays : List ℕ) (sent : List Request)
      → All P sent
      → All P (send_attempts api config payload delays sent).0
  unfolding send_attempts
  send_attempts-All [] sent h = h
  send_attempts-All (delay ∷ delays) sent h =
      let here = send_once-All config sent refl h in
      let later = send_attempts-All delays (send_once api config payload sent).0 here in
      ground (arith, here, later)

-- A request that is sent for one of the configurations, with the payload of that configuration.
abbrev pub Addressed :
    NotificationApi → String → PostgresPhysicalReplica → PostgresPhysicalRestore → Request → Type 0
Addressed api namespace replica restore r =
    (r.payload ≡ payload_for api namespace replica restore r.config)
    × ((include_password r.config ≡ true) ⊎ (r.payload.password ≡ none))

payload_for-private :
    (api : NotificationApi) (namespace : String) (replica : PostgresPhysicalReplica)
    (restore : PostgresPhysicalRestore) (config : NotificationConfig)
    → (include_password config ≡ true)
      ⊎ ((payload_for api namespace replica restore config).password ≡ none)
unfolding payload_for password_for
payload_for-private api namespace replica restore config =
    elim (Bool-cases (include_password config)) [
      | inl asked ↦ inl asked
      | inr left ↦ inr (rw left refl)
    ]

module _ (api : NotificationApi) (namespace : String) (replica : PostgresPhysicalReplica)
    (restore : PostgresPhysicalRestore) where
  own-Addressed :
      (config : NotificationConfig) (r : Request)
      → r.config ≡ config
      → r.payload ≡ payload_for api namespace replica restore config
      → Addressed api namespace replica restore r
  own-Addressed config r same whole =
      let mine = whole ∙ ap (payload_for api namespace replica restore) (sym same) in
      (
        mine,
        elim (payload_for-private api namespace replica restore r.config) [
          | inl asked ↦ inl asked
          | inr left ↦ inr (rw mine left)
        ],
      )

  -- Whatever the cluster and the endpoints answer, every request that is sent holds the payload made for the
  -- configuration that it is sent for, and holds no password unless that configuration includes it.
  pub send_notifications-Addressed :
      (configs : List NotificationConfig) (sent : List Request)
      → All (Addressed api namespace replica restore) sent
      → All
          (Addressed api namespace replica restore)
          (send_notifications api namespace replica restore configs sent).0
  unfolding send_notifications send_notification
  send_notifications-Addressed [] sent h = h
  send_notifications-Addressed (config ∷ configs) sent h =
      let payload = payload_for api namespace replica restore config in
      send_notifications-Addressed configs (send_notification api config payload sent).0 (
        send_attempts-All api (Addressed api namespace replica restore) config payload
          (own-Addressed config) retry_delays sent h)
