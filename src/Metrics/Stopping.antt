-- ===== src/Metrics/Stopping.antt =====
-- The polling after a shutdown, whatever order the calls and the thread come in.
use zigbee_control.Prelude.{◌≡◌, refl, ℕ, String, true, false, some, List, arith}
use zigbee_control.Lifecycle.{LifecycleEvent, startup, prepare_shutdown, shutdown, after_shutdown}
use zigbee_control.Metrics.{
  MetricsService, register_for_polling, on_lifecycle_event, wake, is_alive,
}

-- A call of the service, but for a start, or the end of a wait of a thread that is alive.
pub data Step (s : MetricsService) : MetricsService → Type 0 where
  registers : (name : String) (callback : ℕ) → Step s (register_for_polling name callback s)
  hears : (event : LifecycleEvent) → Step s (on_lifecycle_event event s)
  wakes : is_alive s.updater_thread ≡ true → Step s (wake s)

pub data Steps (s : MetricsService) : MetricsService → Type 0 where
  here : Steps s s
  next : {t u : MetricsService} → Steps s t → Step t u → Steps s u

pub record IsStopped (calls : List ℕ) (s : MetricsService) : Type 0 where
  pub stopping : s.stop_event ≡ true
  pub quiet : s.calls ≡ calls

Step-IsStopped :
    {calls : List ℕ} {s t : MetricsService} → Step s t → IsStopped calls s → IsStopped calls t
unfolding register_for_polling on_lifecycle_event wake
Step-IsStopped (registers name callback) v = record { stopping = v.stopping; quiet = v.quiet }
Step-IsStopped (hears shutdown) v = record { stopping = refl; quiet = v.quiet }
Step-IsStopped (hears startup) v = v
Step-IsStopped (hears prepare_shutdown) v = v
Step-IsStopped (hears after_shutdown) v = v
Step-IsStopped {s = s} (wakes alive) v = ground (arith, v.stopping, v.quiet)

Steps-IsStopped :
    {calls : List ℕ} {s t : MetricsService} → Steps s t → IsStopped calls s → IsStopped calls t
Steps-IsStopped here v = v
Steps-IsStopped (next r st) v = Step-IsStopped st (Steps-IsStopped r v)

-- After the event SHUTDOWN no callback is called any more, unless the polling is started again,
-- whatever is registered or heard and whenever the thread wakes; and the thread ends when it wakes.
pub shutdown-quiet :
    (s t : MetricsService)
    → Steps (on_lifecycle_event shutdown s) t
    → (t.calls ≡ s.calls) × ((wake t).updater_thread ≡ some false) × ((wake t).calls ≡ s.calls)
unfolding on_lifecycle_event wake
shutdown-quiet s t r =
    let v = Steps-IsStopped {calls = s.calls} r (record { stopping = refl; quiet = refl }) in
    ground (arith, v.stopping, v.quiet)
