-- ===== src/LogCapture/Tests.antt =====
-- The log handler and its stream at concrete records.
use zigbee_control.Prelude.{
  ◌≡◌, refl, ℕ, String, true, none, some, List, [], ◌∷◌, ◌++◌, nat_eq, map, arith, contains,
}
use zigbee_control.Dict.{get}
use zigbee_control.Json.{Json, null, text, int, object, field, end}
use zigbee_control.Prelude.Int.{pos}
use zigbee_control.Lifecycle.{shutdown}
use zigbee_control.LogCapture.{LogEvent, LogRecord, format_log_record}
use zigbee_control.LogCapture.Clients.{
  World, SseLogClient, Action, enters, drains, logs, hears, enter,
}
use zigbee_control.LogCapture.Delivery.{run, taken_in, sent_in, enter-Delivers}
use zigbee_control.LogCapture.Stream.{item, empty, log_stream}
use zigbee_control.LogCapture.Stream.Ending.{
  ending, logged, joined_texts, shown, opened, log_stream_ends,
}

abbrev isoformat : ℕ → String
isoformat now = "2026-01-01T00:00:00+00:00"

abbrev plain_record : LogRecord
plain_record = record {
  created = 0;
  levelname = "INFO";
  name = "app";
  message = some "started";
  attributes = ("msg", text "started") ∷ ("taskName", null) ∷ ("_private", null) ∷ [];
}

extra_task_name :
    format_log_record isoformat none plain_record
    ≡ some (
        field "timestamp" (text "2026-01-01T00:00:00+00:00") (
          field "level" (text "INFO") (
            field "logger" (text "app") (
              field "message"
                (text "started")
                (field "extra" (object (field "taskName" null end)) end)))))
unfolding format_log_record
extra_task_name = refl

abbrev nobody : World
nobody = (record { clients = [] }, [])

abbrev actions : List Action
actions = enters 2 ∷ logs none plain_record ∷ drains 1 ∷ hears shutdown ∷ []

enter-Delivers_example :
    (c : SseLogClient) × (get (run isoformat actions (enter 1 nobody)).1 1 ≡ some c)
    × (taken_in isoformat 1 actions (enter 1 nobody) ++ c.events ≡ sent_in isoformat actions)
unfolding contains
enter-Delivers_example =
    enter-Delivers isoformat 1 actions nobody refl ((λ e. omega arith), (tt, (tt, (tt, tt))))

abbrev dumps : Json → String
dumps j = "{}"

abbrev number : ℕ → Json
number n = int (pos n)

abbrev logged_event : LogEvent
logged_event = record { event_type = "log"; data_fields = end }

abbrev closing_event : LogEvent
closing_event = record { event_type = "connection_close"; data_fields = end }

log_stream_ends_example :
    let (texts, ended) =
      log_stream dumps number none 0
        ((item logged_event ∷ empty 40000 ∷ []) ++ ending closing_event [] 50000 []) in
    (ended ≡ true)
    × (logged (joined_texts texts)
        ≡ opened dumps none ∷ map (shown dumps none) (logged_event ∷ closing_event ∷ []))
log_stream_ends_example =
    log_stream_ends dumps number none (λ j. refl) closing_event refl (refl, refl) [] tt 50000 [] 0
      (item logged_event ∷ empty 40000 ∷ []) (refl, tt) ((refl, refl), tt)
