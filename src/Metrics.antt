-- ===== src/Metrics.antt =====
-- app/services/metrics_service.py: the polling of callbacks in a background thread. A callback is known
-- by a number, and its exceptions are swallowed. The thread takes part by the ends of its waits.
pub mod Stopping
use zigbee_control.Prelude.{
  ℕ, String, Bool, true, false, Option, none, some, List, [], ◌∷◌, ◌++◌, if◌then◌else◌, map,
  string_eq,
}
use zigbee_control.Dict.{Dict, put}
use zigbee_control.Lifecycle.{
  LifecycleEvent, startup, prepare_shutdown, shutdown, after_shutdown, LifecycleCoordinator,
  register_lifecycle_notification,
}

-- `updater_thread` says of the thread, if there is one, whether it is alive. `calls` are the calls of
-- callbacks so far.
pub record MetricsService : Type 0 where
  pub polling_callbacks : Dict String ℕ
  pub stop_event : Bool
  pub updater_thread : Option Bool
  pub calls : List ℕ

unfoldable pub create :
    (lifecycle_callback : ℕ) → LifecycleCoordinator → MetricsService × LifecycleCoordinator
create lifecycle_callback c = (
  record { polling_callbacks = []; stop_event = false; updater_thread = none; calls = [] },
  register_lifecycle_notification lifecycle_callback c,
)

unfoldable pub register_for_polling :
    (name : String) → (callback : ℕ) → MetricsService → MetricsService
register_for_polling name callback s = record s {
  polling_callbacks = put s.polling_callbacks name callback;
}

abbrev pub is_alive : Option Bool → Bool
is_alive none = false
is_alive (some alive) = alive

unfoldable pub start_background_updater : MetricsService → MetricsService
start_background_updater s =
    if is_alive s.updater_thread
    then s
    else record s { stop_event = false; updater_thread = some true }

-- `_stop_background_updater`; the `join` may end before the thread has.
unfoldable pub stop_background_updater : MetricsService → MetricsService
stop_background_updater s = record s { stop_event = true }

unfoldable pub shut_down : MetricsService → MetricsService
unfolding stop_background_updater
shut_down s = stop_background_updater s

unfoldable pub on_lifecycle_event : LifecycleEvent → MetricsService → MetricsService
unfolding shut_down
on_lifecycle_event shutdown s = shut_down s
on_lifecycle_event startup s = s
on_lifecycle_event prepare_shutdown s = s
on_lifecycle_event after_shutdown s = s

-- What `_background_update_loop` does when its wait has ended, by the event or by the time.
unfoldable pub wake : MetricsService → MetricsService
wake s =
    if s.stop_event
    then record s { updater_thread = some false }
    else record s { calls = s.calls ++ map (λ p. p.1) s.polling_callbacks }
