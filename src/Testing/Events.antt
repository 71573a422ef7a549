-- ===== src/Testing/Events.antt =====
-- app/api/testing_sse.py: the endpoints that start a task, announce a version and send a task event in
-- tests, and the two tasks. A payload is given as its fields, after `model_validate`.
pub mod Sent
use Prim.Native.String.{◌++◌ as append}
use zigbee_control.Prelude.{
  ℕ, zero, suc, ◌+◌, String, Bool, true, false, not, Option, none, some, if◌then◌else◌, ◌==◌,
  string_eq,
}
use zigbee_control.Prelude.Int.{ℤ}
use zigbee_control.Prelude.Results.{Result, ok, err}
use zigbee_control.Json.{Json, Fields, text, bool, object, field, end}
use zigbee_control.Settings.{Settings, is_testing}
use zigbee_control.Errors.{Exception, route_not_available_exception, invalid_operation_exception}
use zigbee_control.Auth.Tokens.{AuthContext}
use zigbee_control.Kube.Errors.{show_ℕ}
use zigbee_control.Sse.{Manager, Env, has_connection}
use zigbee_control.Sse.Sending.{send_event}
use zigbee_control.Tasks.{
  TaskService, TaskEventType, BaseTask, task_started, progress_update, task_completed, task_failed,
  start_task,
}
use zigbee_control.Tasks.Worker.{event_json}
use zigbee_control.Tasks.Progress.{TaskProgressHandle, send_progress}
use zigbee_control.FrontendVersion.{FrontendVersionService, queue_version_event}

pub record Answer : Type 0 where
  pub status_code : ℕ
  pub body : Json

-- `check_testing_mode`, before each of the endpoints: outside the testing mode the view is not called.
unfoldable pub guarded {ℓ} :
    {S : Type ℓ} → Settings → S → Result Exception Answer × S → Result Exception Answer × S
guarded config s outcome =
    if is_testing config then outcome else (err route_not_available_exception, s)

abbrev pub demo_task : BaseTask
demo_task = record { code = 0; is_cancelled = false }

abbrev pub failing_task : BaseTask
failing_task = record { code = 1; is_cancelled = false }

abbrev pub known_task : (task_type : String) → Option BaseTask
known_task task_type =
    if task_type == "demo_task"
    then some demo_task
    else if task_type == "failing_task"
    then some failing_task
    else none

abbrev pub subject_of : Option AuthContext → Option String
subject_of none = none
subject_of (some auth) = some auth.subject

abbrev pub started : (task_id : String) → Answer
started task_id = record {
  status_code = 200;
  body = object (field "task_id" (text task_id) (field "status" (text "started") end));
}

abbrev pub error_body : (error : String) → Fields → Json
error_body error rest = object (field "error" (text error) rest)

abbrev pub after_start :
    (task_id : String) → Option TaskService → TaskService → Result Exception Answer × TaskService
after_start task_id none s =
    (err (invalid_operation_exception "start task" "service is shutting down"), s)
after_start task_id (some s') s = (ok (started task_id), s')

abbrev pub start_known :
    Option BaseTask
    → (task_type task_id : String) → (caller_subject : Option String) → (now : ℕ) → TaskService
    → Result Exception Answer × TaskService
start_known none task_type task_id caller_subject now s = (
  ok (record { status_code = 400; body = error_body (append "Unknown task_type: " task_type) end }),
  s,
)
start_known (some task) task_type task_id caller_subject now s =
    after_start task_id (start_task task_id task caller_subject now s) s

unfoldable pub start_test_task :
    Settings
    → (task_type task_id : String) → Option AuthContext
    → (now : ℕ) → TaskService
    → Result Exception Answer × TaskService
unfolding guarded start_task
start_test_task config task_type task_id auth now s =
    guarded config s (start_known (known_task task_type) task_type task_id (subject_of auth) now s)

module _ (env : Env) where
  abbrev pub delivery : (request_id : String) → Bool → Json
  delivery request_id delivered = object (
      field "request_id" (text request_id) (
        field "delivered" (bool delivered)
          (field "status" (text (if delivered then "delivered" else "queued")) end)))

  unfoldable pub trigger_version_event :
      Settings
      → (request_id version : String) → (changelog : Option String) → FrontendVersionService
      → Result Exception Answer × FrontendVersionService
  unfolding guarded queue_version_event
  trigger_version_event config request_id version changelog s =
      let (delivered, s') = queue_version_event env request_id version changelog s in
      guarded config s (ok (record { status_code = 202; body = delivery request_id delivered }), s')

  -- `_EVENT_TYPE_MAP`, for the values of the schema.
  abbrev pub event_type_of : String → Option TaskEventType
  event_type_of name =
      if name == "task_started"
      then some task_started
      else if name == "progress_update"
      then some progress_update
      else if name == "task_completed"
      then some task_completed
      else if name == "task_failed"
      then some task_failed
      else none

  module _ (isoformat : ℕ → String) where
    abbrev pub not_found : (request_id : String) → Answer
    not_found request_id = record {
      status_code = 400;
      body =
          error_body (append "No SSE connection registered for request_id: " request_id)
            (field "status" (text "not_found") end);
    }

    abbrev pub send_failed : (request_id : String) → Answer
    send_failed request_id = record {
      status_code = 400;
      body =
          error_body (append "Failed to send event to connection: " request_id)
            (field "status" (text "send_failed") end);
    }

    abbrev pub sent_answer : (request_id task_id event_type : String) → Answer
    sent_answer request_id task_id event_type = record {
      status_code = 200;
      body = object (
          field "request_id" (text request_id) (
            field "task_id" (text task_id)
              (field "event_type" (text event_type) (field "delivered" (bool true) end))));
    }

    abbrev pub send_known :
        (request_id task_id event_type : String)
        → TaskEventType
        → (now : ℕ) → Option Json
        → Manager
        → Answer × Manager
    send_known request_id task_id event_type kind now event_data m =
        let event = event_json env isoformat kind task_id now event_data in
        let (success, m') = send_event env (some request_id) event "task_event" none m in
        (if success then sent_answer request_id task_id event_type else send_failed request_id, m')

    -- The event type is one of the schema's.
    unfoldable pub send_task_event :
        Settings
        → (request_id task_id event_type : String) → TaskEventType
        → (now : ℕ) → Option Json
        → Manager
        → Result Exception Answer × Manager
    unfolding guarded has_connection
    send_task_event config request_id task_id event_type kind now event_data m =
        let (answer, m') = send_known request_id task_id event_type kind now event_data m in
        guarded config m
          (if has_connection request_id m then (ok answer, m') else (ok (not_found request_id), m))

-- What the code of a task ends in: the status of its result, or an exception with its text.
pub data TaskOutcome : Type 0 where
  returned raised : String → TaskOutcome

module _ (env : Env) (isoformat : ℕ → String) (number : ℤ → Json) (ratio : ℕ → ℕ → ℤ)
    (refused : String) where
  -- The rest of the loop of `_DemoTask.execute`, from step `i` on. `cancelled i` is what `is_cancelled`
  -- says at step `i`, `ratio` the quotient of two numbers, `refused` the text of a validation error.
  unfoldable pub demo_steps :
      (steps : ℕ)
      → (cancelled : ℕ → Bool) → (now : ℕ) → (left i : ℕ) → TaskProgressHandle
      → Manager
      → TaskOutcome × (TaskProgressHandle × Manager)
  unfolding send_progress show_ℕ
  demo_steps steps cancelled now zero i h m = (returned "success", (h, m))
  demo_steps steps cancelled now (suc left) i h m =
      let label = append "Step " (append (show_ℕ (i + 1)) (append "/" (show_ℕ steps))) in
      let (sent, (h', m')) =
        send_progress env isoformat number now label (ratio (i + 1) steps) h m in
      let rest = demo_steps steps cancelled now left (i + 1) h' m' in
      if cancelled i
      then (returned "cancelled", (h, m))
      else if sent
      then rest
      else (raised refused, (h', m'))

  unfoldable pub demo_execute :
      (steps : ℕ)
      → (cancelled : ℕ → Bool) → (now : ℕ) → TaskProgressHandle
      → Manager
      → TaskOutcome × (TaskProgressHandle × Manager)
  unfolding demo_steps
  demo_execute steps cancelled now h m = demo_steps steps cancelled now steps 0 h m

-- `_FailingTask.execute`
abbrev pub failing_execute : (error_message : String) → TaskOutcome
failing_execute error_message = raised error_message
