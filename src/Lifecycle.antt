-- ===== src/Lifecycle.antt =====
-- app/utils/lifecycle_coordinator.py: the lifecycle events and the graceful shutdown. A callback and
-- a waiter are known by numbers. What a callback does is not seen here, since the coordinator
-- ignores its result and its exceptions: `raised` records the calls. Time is a number of milliseconds.
mod Tests
pub mod Hearing
pub mod Shutdown
use zigbee_control.Prelude.{
  ℕ, ◌+◌, ◌-◌, String, Bool, true, false, not, ◌&&◌, List, [], ◌∷◌, ◌++◌, if◌then◌else◌, map, leb,
  string_eq,
}
use zigbee_control.Dict.{Dict, put}

pub data LifecycleEvent : Type 0 where
  startup prepare_shutdown shutdown after_shutdown : LifecycleEvent

pub record LifecycleCoordinator : Type 0 where
  pub graceful_shutdown_timeout : ℕ
  pub shutting_down : Bool
  pub started : Bool
  pub lifecycle_notifications : List ℕ
  pub shutdown_waiters : Dict String ℕ
  pub raised : List (ℕ × LifecycleEvent)
  pub waited : List (ℕ × ℕ)

unfoldable pub init_coordinator : ℕ → LifecycleCoordinator
init_coordinator graceful_shutdown_timeout = record {
  graceful_shutdown_timeout = graceful_shutdown_timeout;
  shutting_down = false;
  started = false;
  lifecycle_notifications = [];
  shutdown_waiters = [];
  raised = [];
  waited = [];
}

unfoldable pub register_lifecycle_notification : ℕ → LifecycleCoordinator → LifecycleCoordinator
register_lifecycle_notification callback c = record c {
  lifecycle_notifications = c.lifecycle_notifications ++ callback ∷ [];
}

unfoldable pub register_shutdown_waiter : String → ℕ → LifecycleCoordinator → LifecycleCoordinator
register_shutdown_waiter name handler c = record c {
  shutdown_waiters = put c.shutdown_waiters name handler;
}

unfoldable pub is_shutting_down : LifecycleCoordinator → Bool
is_shutting_down c = c.shutting_down

unfoldable pub raise_lifecycle_event : LifecycleEvent → LifecycleCoordinator → LifecycleCoordinator
raise_lifecycle_event event c = record c {
  raised = c.raised ++ map (λ callback. (callback, event)) c.lifecycle_notifications;
}

unfoldable pub fire_startup : LifecycleCoordinator → LifecycleCoordinator
fire_startup c =
    if c.started then c else raise_lifecycle_event startup (record c { started = true })

-- What a waiter does with the time that remains: its answer and how long it took.
pub data WaitAnswer : Type 0 where
  ready not_ready raises : WaitAnswer

abbrev pub is_ready : WaitAnswer → Bool
is_ready ready = true
is_ready _ = false

-- `waiter handler remaining`, and the coordinator of the run.
module _ (waiter : ℕ → ℕ → WaitAnswer × ℕ) where
  pub record WaitOutcome : Type 0 where
    pub all_ready : Bool
    pub elapsed : ℕ
    pub calls : List (ℕ × ℕ)

  abbrev pub wait_one : WaitAnswer × ℕ → (handler remaining : ℕ) → WaitOutcome → WaitOutcome
  wait_one (reply, took) handler remaining out = record {
    all_ready = out.all_ready && is_ready reply;
    elapsed = out.elapsed + took;
    calls = out.calls ++ (handler, remaining) ∷ [];
  }

  -- The loop over the waiters: each gets what is left of the timeout, and when nothing is left the
  -- loop is broken off.
  unfoldable pub wait_each : (timeout : ℕ) → Dict String ℕ → WaitOutcome → WaitOutcome
  wait_each timeout [] out = out
  wait_each timeout ((name, handler) ∷ rest) out =
      let remaining = timeout - out.elapsed in
      let later =
        wait_each timeout rest (wait_one (waiter handler remaining) handler remaining out) in
      if leb timeout out.elapsed then record out { all_ready = false } else later

  abbrev pub nothing_waited : WaitOutcome
  nothing_waited = record { all_ready = true; elapsed = 0; calls = [] }

  -- `shutdown`, which is also the signal handler. A second call returns at once.
  unfoldable pub shut_down : LifecycleCoordinator → LifecycleCoordinator
  shut_down c =
      let prepared = raise_lifecycle_event prepare_shutdown (record c { shutting_down = true }) in
      let out = wait_each c.graceful_shutdown_timeout c.shutdown_waiters nothing_waited in
      if c.shutting_down
      then c
      else raise_lifecycle_event after_shutdown
          (raise_lifecycle_event shutdown (record prepared { waited = c.waited ++ out.calls }))
