-- ===== src/LogCapture/Clients.antt =====
-- `SSELogClient` of app/utils/log_capture.py, and the actions of the handler and its clients in any
-- order. Each action is one locked section.
use zigbee_control.Prelude.{
  ℕ, String, Bool, true, false, Option, none, some, List, [], ◌∷◌, ◌++◌, if◌then◌else◌, nat_eq,
  string_eq,
}
use zigbee_control.Dict.{Dict, get, put}
use zigbee_control.Lifecycle.{LifecycleEvent}
use zigbee_control.LogCapture.{
  LogEvent, LogRecord, LogCaptureHandler, register_client, unregister_client, emit,
  on_lifecycle_event,
}

pub record SseLogClient : Type 0 where
  pub events : List LogEvent
  pub closed : Bool

-- The clients that exist.
abbrev pub Clients : Type 0
Clients = Dict ℕ SseLogClient

abbrev pub World : Type 0
World = LogCaptureHandler × Clients

abbrev pub new_client : SseLogClient
new_client = record { events = []; closed = false }

-- `put` on a client that is gone cannot be called; it is answered as a call that returns.
abbrev pub received : Option SseLogClient → ℕ → LogEvent → Clients → Clients
received none client event s = s
received (some c) client event s =
    if c.closed then s else put s client (record c { events = c.events ++ event ∷ [] })

unfoldable pub put_event : ℕ → LogEvent → Clients → Bool × Clients
put_event client event s = (true, received (get s client) client event s)

-- `__init__` and `__enter__`.
unfoldable pub enter : ℕ → World → World
unfolding register_client
enter client (h, s) = (register_client client h, put s client new_client)

abbrev pub closed_client : Option SseLogClient → ℕ → World → World
closed_client none client w = w
closed_client (some c) client (h, s) =
    if c.closed
    then (h, s)
    else (unregister_client client h, put s client (record c { closed = true }))

unfoldable pub close : ℕ → World → World
unfolding unregister_client
close client (h, s) = closed_client (get s client) client (h, s)

abbrev pub taken : Option SseLogClient → ℕ → Clients → List LogEvent × Clients
taken none client s = ([], s)
taken (some c) client s = (c.events, put s client (record c { events = [] }))

unfoldable pub get_events : ℕ → World → List LogEvent × World
get_events client (h, s) = let (events, s') = taken (get s client) client s in (events, (h, s'))

-- `wait_for_events`: the looks at the buffer before the timeout, between which the world may have
-- changed, and then a last one.
unfoldable pub wait_for_events : ℕ → List World → World → List LogEvent × World
unfolding get_events
wait_for_events client [] last = get_events client last
wait_for_events client (w ∷ looks) last =
    let later = wait_for_events client looks last in
    elim (get_events client w).0 [ [] ↦ later | event ∷ events ↦ get_events client w ]

pub data Action : Type 0 where
  enters closes drains : (client : ℕ) → Action
  logs : (correlation_id : Option String) → LogRecord → Action
  hears : LifecycleEvent → Action

module _ (isoformat : ℕ → String) where
  unfoldable pub step : Action → World → World
  unfolding enter close get_events emit on_lifecycle_event put_event
  step (enters client) w = enter client w
  step (closes client) w = close client w
  step (drains client) w = (get_events client w).1
  step (logs correlation_id r) w = emit put_event isoformat correlation_id r w
  step (hears event) w = on_lifecycle_event put_event event w
