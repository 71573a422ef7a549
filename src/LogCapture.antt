-- ===== src/LogCapture.antt =====
-- app/utils/log_capture.py and `format_sse_event` of app/utils/sse_utils.py: the handler that hands
-- log records to its clients. A client is known by a number, and the set of the clients is a list
-- without repetition, in the order in which it is gone through. `Clients` has the clients of the
-- class `SSELogClient`, `Stream` the endpoint that streams the log.
pub mod Clients
pub mod Opened
pub mod Delivery
pub mod Stream
pub mod Framing
mod Tests
use Prim.Native.String.{◌++◌ as append}
use zigbee_control.Prelude.{
  ℕ, String, Bool, true, false, not, ◌||◌, Option, none, some, List, [], ◌∷◌, ◌++◌, if◌then◌else◌,
  ◌==◌, nat_eq, string_eq, truthy, contains, select,
}
use zigbee_control.Prelude.Texts.{starts_with}
use zigbee_control.Json.{Json, Fields, text, object, end, field}
use zigbee_control.Lifecycle.{LifecycleEvent, startup, prepare_shutdown, shutdown, after_shutdown}

-- The type of an event and its data, which are always a dict.
pub record LogEvent : Type 0 where
  pub event_type : String
  pub data_fields : Fields

-- `attributes` is the dict of the record, and `message` what `getMessage` returns; it raises where
-- the arguments do not fit the message.
pub record LogRecord : Type 0 where
  pub created : ℕ
  pub levelname : String
  pub name : String
  pub message : Option String
  pub attributes : List (String × Json)

abbrev pub skip_attrs : List String
skip_attrs =
    "name" ∷ "msg" ∷ "args" ∷ "levelname" ∷ "levelno" ∷ "pathname" ∷ "filename" ∷ "module"
    ∷ "exc_info" ∷ "exc_text" ∷ "stack_info" ∷ "lineno" ∷ "funcName" ∷ "created" ∷ "msecs"
    ∷ "relativeCreated" ∷ "thread" ∷ "threadName" ∷ "processName" ∷ "process" ∷ "getMessage"
    ∷ "message" ∷ []

-- Whether an attribute of the record is not put into `extra`.
abbrev pub is_skipped : String → Bool
is_skipped key = contains skip_attrs key || starts_with "_" key

unfoldable pub extra_fields : List (String × Json) → Fields
unfolding contains
extra_fields [] = end
extra_fields ((key, value) ∷ rest) =
    let fields = extra_fields rest in if is_skipped key then fields else field key value fields

abbrev pub extra_part : Fields → Fields
extra_part end = end
extra_part (field key value fields) = field "extra" (object (field key value fields)) end

abbrev pub correlation_part : (correlation_id : Option String) → Fields → Fields
correlation_part none rest = rest
correlation_part (some correlation_id) rest =
    if truthy correlation_id then field "correlation_id" (text correlation_id) rest else rest

-- `none` is an exception of `getMessage`.
unfoldable pub format_log_record :
    (isoformat : ℕ → String) → (correlation_id : Option String) → LogRecord → Option Fields
unfolding extra_fields
format_log_record isoformat correlation_id r = elim r.message [
  | none ↦ none
  | some message ↦ some (
      field "timestamp" (text (isoformat r.created)) (
        field "level" (text r.levelname) (
          field "logger" (text r.name) (
            field "message" (text message)
              (correlation_part correlation_id (extra_part (extra_fields r.attributes)))))))
]

pub record LogCaptureHandler : Type 0 where
  pub clients : List ℕ

unfoldable pub register_client : ℕ → LogCaptureHandler → LogCaptureHandler
unfolding contains
register_client client h = record h {
  clients = if contains h.clients client then h.clients else h.clients ++ client ∷ [];
}

-- `set.discard`
unfoldable pub unregister_client : ℕ → LogCaptureHandler → LogCaptureHandler
unregister_client client h = record h { clients = select (λ c. not (c == client)) h.clients }

-- What the clients keep is the state `S`. `deliver` is the call of `send_event` or `put` of a client,
-- which returns (`true`) or raises (`false`).
module _ {S : Type 0} (deliver : ℕ → LogEvent → S → Bool × S) where
  -- The clients that raised, and the state after the loop.
  unfoldable pub send_each : LogEvent → List ℕ → S → List ℕ × S
  send_each event [] s = ([], s)
  send_each event (client ∷ rest) s =
      let (sent, s') = deliver client event s in
      let (failed, after) = send_each event rest s' in
      (if sent then failed else client ∷ failed, after)

  unfoldable pub discard_each : List ℕ → LogCaptureHandler → LogCaptureHandler
  unfolding unregister_client
  discard_each [] h = h
  discard_each (client ∷ rest) h = discard_each rest (unregister_client client h)

  unfoldable pub broadcast_event : LogEvent → LogCaptureHandler × S → LogCaptureHandler × S
  unfolding send_each discard_each
  broadcast_event event (h, s) =
      let (clients_to_remove, after) = send_each event h.clients s in
      (discard_each clients_to_remove h, after)

  -- An exception ends in `handleError`, which changes nothing.
  unfoldable pub emit :
      (isoformat : ℕ → String)
      → (correlation_id : Option String) → LogRecord
      → LogCaptureHandler × S
      → LogCaptureHandler × S
  unfolding format_log_record broadcast_event
  emit isoformat correlation_id r w = elim (format_log_record isoformat correlation_id r) [
    | none ↦ w
    | some log_data ↦ broadcast_event (record { event_type = "log"; data_fields = log_data }) w
  ]

  abbrev pub connection_close : LogEvent
  connection_close = record {
    event_type = "connection_close";
    data_fields = field "reason" (text "server_shutdown") end;
  }

  unfoldable pub on_lifecycle_event : LifecycleEvent → LogCaptureHandler × S → LogCaptureHandler × S
  unfolding broadcast_event
  on_lifecycle_event shutdown w = broadcast_event connection_close w
  on_lifecycle_event startup w = w
  on_lifecycle_event prepare_shutdown w = w
  on_lifecycle_event after_shutdown w = w
