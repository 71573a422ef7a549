-- ===== src/Testing/Events/Sent.antt =====
-- What the endpoint that sends a task event does on each of its ways.
use zigbee_control.Prelude.{
  ◌≡◌, refl, ap, ◌∙◌, ℕ, String, true, false, Option, none, some, [], ◌∷◌, ◌++◌, if◌then◌else◌,
  string_eq,
}
use zigbee_control.Prelude.Results.{Result, ok, err}
use zigbee_control.Json.{Json}
use zigbee_control.Dict.{get, has}
use zigbee_control.Settings.{Settings, is_testing}
use zigbee_control.Errors.{Exception, route_not_available_exception}
use zigbee_control.Sse.{Manager, Env, Connection}
use zigbee_control.Sse.Sending.{send_event, event_request}
use zigbee_control.Sse.Delivery.{is_status, send_event_targeted}
use zigbee_control.Tasks.{TaskEventType}
use zigbee_control.Tasks.Worker.{event_json}
use zigbee_control.Testing.Events.{Answer, not_found, send_failed, sent_answer, send_task_event}

module _ (env : Env) (isoformat : ℕ → String) (config : Settings)
    (request_id task_id event_type : String) (kind : TaskEventType) (now : ℕ)
    (event_data : Option Json) (m : Manager) where
  abbrev outcome : Result Exception Answer × Manager
  outcome = send_task_event env isoformat config request_id task_id event_type kind now event_data m

  abbrev pub Refused : Type 0
  Refused = outcome ≡ (err route_not_available_exception, m)

  abbrev pub Unknown : Type 0
  Unknown = outcome ≡ (ok (not_found env isoformat request_id), m)

  -- The event is posted once, to the token of the connection, and the answer of the gateway decides.
  abbrev pub Posted : Connection → Type 0
  Posted c =
      let request =
        event_request env c.token (event_json env isoformat kind task_id now event_data)
          "task_event" in
      (outcome.1.posts ≡ m.posts ++ request ∷ [])
      × (outcome.0
          ≡ ok (
              if is_status 200 (env.gateway m.posts request)
              then sent_answer env isoformat request_id task_id event_type
              else send_failed env isoformat request_id))

  event_sent :
      (c : Connection)
      → is_testing config ≡ true
      → get m.connections request_id ≡ some c
      → let (sent, m') =
          send_event env
            (some request_id)
            (event_json env isoformat kind task_id now event_data)
            "task_event"
            none
            m in
        outcome ≡ (
          ok (
              if sent
              then sent_answer env isoformat request_id task_id event_type
              else send_failed env isoformat request_id),
          m',
        )
  unfolding send_task_event has
  event_sent c test found = rw test (rw found refl)

  -- Outside the testing mode the request is refused and changes nothing. In it, a request id without a
  -- connection is answered 400 and nothing is sent; else the event is posted once, to the token of the
  -- connection, and the answer is 200 exactly if the gateway answers 200, and else 400.
  pub send_task_event_exact :
      (is_testing config ≡ false → Refused)
      × (is_testing config ≡ true → get m.connections request_id ≡ none → Unknown)
      × ((c : Connection)
          → is_testing config ≡ true
          → get m.connections request_id ≡ some c
          → Posted c)
  unfolding send_task_event has
  send_task_event_exact = (
    λ live. rw live refl,
    λ test missing. rw test (rw missing refl),
    λ c test found.
        let event = event_json env isoformat kind task_id now event_data in
        let targeted = send_event_targeted env event "task_event" request_id c none m found in
        let here = event_sent c test found in
        (
          ap (λ r. r.1.posts) here ∙ targeted.0,
          ap (λ r. r.0) here
              ∙ ap
                  (λ sent. ok (
                    if sent
                    then sent_answer env isoformat request_id task_id event_type
                    else send_failed env isoformat request_id))
                  targeted.1,
        ),
  )
