-- ===== src/Examples/Notices.antt =====
-- A condition, the events of a replica and a notification at concrete inputs:
-- src/controllers/replica/status.rs, src/controllers/restore.rs and src/notifications.rs.
use postgres_restore_operato.Prelude.{
  ℕ, ◌+◌, ◌≤◌, ◌≡◌, refl, max, true, false, none, some, List, [], ◌∷◌, if◌then◌else◌, length, any,
  All, arith,
}
use postgres_restore_operato.Effects.{Error, Result, ok, err}
use postgres_restore_operato.Examples.{a_replica, busy}
use postgres_restore_operato.Examples.Replicas.{switching}
use postgres_restore_operato.Queue.{
  position, enqueue, retain_active, release_restore_slot, remove, position_from, try_promote,
  promote,
}
use postgres_restore_operato.Queue.Served.{Step, promotions, is_key, promotions_served}
use postgres_restore_operato.Status.{Condition, Current, set_condition, update_condition}
use postgres_restore_operato.Status.Conditions.{
  condition_of, conditions_of, set_to, update_condition_lem,
}
use postgres_restore_operato.Restore.Generations.{
  Event, answers, spec_answers, answers-spec_answers,
}
use postgres_restore_operato.Notifications.{NotificationConfig, NotificationApi, Request, webhook}
use postgres_restore_operato.Notifications.Sending.{
  send_notification, payload_for, send_notifications,
}
use postgres_restore_operato.Notifications.Attempts.{delivered, one_if, send_notification_lem}
use postgres_restore_operato.Notifications.Private.{Addressed, send_notifications-Addressed}

-- Two replicas give up their slots, while another one is enqueued and the slots are swept.
abbrev some_steps : List Step
some_steps =
    Step.release "ns/a" ∷ Step.enter "ns/d" 9 ∷ Step.sweep ("ns/b" ∷ []) ∷ Step.release "ns/b" ∷ []

promotions_served_example : any (is_key "ns/c") (promotions busy 1 some_steps) ≡ true
unfolding position position_from release_restore_slot remove try_promote promote enqueue
    retain_active
promotions_served_example =
    promotions_served some_steps busy "ns/c" 1 2 (omega arith) refl (omega arith)
      (refl, (refl, (refl, (refl, tt))))

abbrev ready : Condition
ready = record {
  type_ = "Ready";
  status = "True";
  reason = "Restored";
  message = "";
  last_transition_time = 10;
  observed_generation = some 1;
}

abbrev current : Current
current = record { generation = some 2; conditions = ready ∷ [] }

abbrev accepts : List Condition → Result (Unit {0})
accepts conditions = ok tt

abbrev still_ready : List Condition
still_ready = record ready { reason = "Switched"; observed_generation = some 2 } ∷ []

update_condition_lem_example :
    (condition_of "Ready" still_ready ≡ (
      if true
      then some (set_to 20 "Ready" "True" "Switched" "" current)
      else condition_of "Ready" current.conditions))
    × (conditions_of "Ready" still_ready ≡ (
        if true
        then max 1 (conditions_of "Ready" current.conditions)
        else conditions_of "Ready" current.conditions))
unfolding update_condition set_condition
update_condition_lem_example =
    update_condition_lem current accepts 20 "Ready" "True" "Switched" "" "Ready" still_ready refl

abbrev some_events : List Event
some_events =
    record { key = "ns/r"; deleted = false; generation = 1 }
    ∷ record { key = "ns/r"; deleted = false; generation = 1 }
    ∷ record { key = "ns/r"; deleted = true; generation = 2 }
    ∷ record { key = "ns/r"; deleted = false; generation = 1 }
    ∷ []

answers-spec_answers_example : answers [] some_events ≡ spec_answers [] some_events
answers-spec_answers_example = answers-spec_answers some_events

abbrev a_config : NotificationConfig
a_config = webhook (record {
  url = "https://example.org";
  method = "POST";
  headers = none;
  include_password = false;
})

-- An endpoint that answers with an error until it has had three requests.
abbrev answer_after : List Request → Result ℕ
answer_after (_ ∷ _ ∷ _ ∷ _) = ok 204
answer_after _ = ok 503

abbrev an_api : NotificationApi
an_api = record {
  now = 100;
  secret = λ name. ok (some (("password", some "hidden") ∷ []));
  respond = λ sent r. answer_after sent;
  render = λ config payload. err (Error.notification "template");
  to_uppercase = λ s. s;
}

send_notification_lem_example :
    let (sent, status) =
      send_notification an_api a_config (payload_for an_api "ns" a_replica switching a_config) [] in
    (length sent ≤ 5 + 0) × (delivered an_api sent ≡ one_if status.success + 0)
send_notification_lem_example =
    send_notification_lem an_api a_config (payload_for an_api "ns" a_replica switching a_config) []

send_notifications-Addressed_example :
    All
      (Addressed an_api "ns" a_replica switching)
      (send_notifications an_api "ns" a_replica switching (a_config ∷ []) []).0
send_notifications-Addressed_example =
    send_notifications-Addressed an_api "ns" a_replica switching (a_config ∷ []) [] tt
