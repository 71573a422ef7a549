-- ===== src/LogCapture/Stream.antt =====
-- The stream of app/api/testing_logs.py: the generator `log_stream`, as a function of what its waits
-- end in. The time of `perf_counter` is a number of milliseconds, and `number` is the JSON of the
-- time of a heartbeat.
pub mod Ending
use Prim.Native.String.{◌++◌ as append}
use zigbee_control.Prelude.{
  ℕ, ◌+◌, String, Bool, true, false, ◌||◌, Option, none, some, List, [], ◌∷◌, ◌++◌, if◌then◌else◌,
  leb, ◌==◌, string_eq, truthy_opt,
}
use zigbee_control.Json.{Json, Fields, text, end, field}
use zigbee_control.Errors.{Exception, route_not_available_exception}
use zigbee_control.Prelude.Results.{Result, ok, err}
use zigbee_control.Settings.{Settings, is_testing}
use zigbee_control.LogCapture.{LogEvent, LogCaptureHandler, register_client, unregister_client}
use zigbee_control.LogCapture.Framing.{dict, with_correlation, format_sse_event}

-- What a wait for the queue ends in: an event, or `Empty` at a time.
pub data Wake : Type 0 where
  item : LogEvent → Wake
  empty : (now : ℕ) → Wake

-- The texts that were sent, and whether the generator has ended; else it waits.
abbrev pub Output : Type 0
Output = List String × Bool

abbrev pub heartbeat_interval : ℕ
heartbeat_interval = 30000

module _ (dumps : Json → String) (number : ℕ → Json) (correlation_id : Option String) where
  abbrev pub event_text : LogEvent → String
  event_text e =
      format_sse_event dumps e.event_type (dict (with_correlation correlation_id e.data_fields))
        none

  abbrev pub heartbeat : ℕ → String
  heartbeat now =
      format_sse_event dumps "heartbeat" (dict (field "timestamp" (number now) end)) correlation_id

  abbrev pub is_due : (last_heartbeat now : ℕ) → Bool
  is_due last_heartbeat now = leb (last_heartbeat + heartbeat_interval) now

  abbrev pub before : List String → Output → Output
  before texts (later, ended) = (texts ++ later, ended)

  -- The `while` loop.
  unfoldable pub log_loop : List Wake → (shutdown_requested : Bool) → (last_heartbeat : ℕ) → Output
  unfolding format_sse_event with_correlation
  log_loop [] shutdown_requested last_heartbeat = ([], false)
  log_loop (item e ∷ wakes) shutdown_requested last_heartbeat =
      before (event_text e ∷ [])
        (log_loop wakes (shutdown_requested || e.event_type == "connection_close") last_heartbeat)
  log_loop (empty now ∷ wakes) shutdown_requested last_heartbeat =
      let due = is_due last_heartbeat now in
      let later = log_loop wakes false (if due then now else last_heartbeat) in
      if shutdown_requested
      then ([], true)
      else before (if due then heartbeat now ∷ [] else []) later

  abbrev pub opening : String
  opening =
      format_sse_event dumps "connection_open" (dict (field "status" (text "connected") end))
        correlation_id

  unfoldable pub log_stream : (start : ℕ) → List Wake → Output
  unfolding log_loop
  log_stream start wakes = before (opening ∷ []) (log_loop wakes false start)

-- The handler's clients while the generator runs, and after it ended or was closed.
unfoldable pub run_stream : (client : ℕ) → (finished : Bool) → LogCaptureHandler → LogCaptureHandler
unfolding register_client unregister_client
run_stream client finished h =
    let during = register_client client h in
    if finished then unregister_client client during else during

-- `stream_logs`, with the guard of its blueprint.
unfoldable pub stream_logs : Settings → Output → Result Exception Output
stream_logs config output =
    if is_testing config then ok output else err route_not_available_exception

-- `get_current_correlation_id` after `ensure_request_id_from_query`, within the request.
unfoldable pub correlation_of_query : (request_id current : Option String) → Option String
correlation_of_query request_id current = if truthy_opt request_id then request_id else current
