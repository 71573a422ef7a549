-- ===== src/Tasks/Worker.antt =====
-- The sections of a worker thread: the parts of `_execute_task` of app/services/task_service.py
-- before, after and instead of the return of the task's own code, and the events they send.
use zigbee_control.Prelude.{
  ℕ, String, Bool, false, not, Option, none, some, if◌then◌else◌, nat_eq, string_eq,
}
use zigbee_control.Json.{Json, null, text, object, field, end}
use zigbee_control.Dict.{get, adjust}
use zigbee_control.Sse.{Env}
use zigbee_control.Sse.Sending.{send_event}
use zigbee_control.Tasks.{
  TaskEventType, event_type_value, TaskInfo, TaskService, is_cancelled_status, check_tasks_complete,
  running, completed, failed, task_started, task_completed, task_failed,
}

module _ (env : Env) (isoformat : ℕ → String) where
  abbrev pub or_null : Option Json → Json
  or_null none = null
  or_null (some data_value) = data_value

  unfoldable pub event_json : TaskEventType → String → ℕ → Option Json → Json
  unfolding event_type_value
  event_json kind task_id now event_data = object (
      field "event_type" (text (event_type_value kind)) (
        field "task_id" (text task_id)
          (field "timestamp" (text (isoformat now)) (field "data" (or_null event_data) end))))

  unfoldable pub broadcast_task_event : Json → Option String → TaskService → TaskService
  broadcast_task_event event target_subject s = record s {
    sse = (send_event env none event "task_event" target_subject s.sse).1;
  }

  unfoldable pub begin : String → Option String → ℕ → TaskService → TaskService
  begin task_id caller_subject now s =
      broadcast_task_event (event_json task_started task_id now none) caller_subject
        (record s { tasks = adjust s.tasks task_id (λ info. record info { status = running }) })

  abbrev pub can_complete : Option TaskInfo → Bool
  can_complete none = false
  can_complete (some info) = not (is_cancelled_status info.status)

  abbrev pub completed_at : ℕ → Option Json → TaskInfo → TaskInfo
  completed_at now result info = record info {
    status = completed;
    end_time = some now;
    result = result;
  }

  unfoldable pub complete : String → Option Json → Option String → ℕ → TaskService → TaskService
  complete task_id result caller_subject now s =
      if can_complete (get s.tasks task_id)
      then check_tasks_complete (
          broadcast_task_event (event_json task_completed task_id now result) caller_subject
            (record s { tasks = adjust s.tasks task_id (completed_at now result) }))
      else s

  abbrev pub failed_at : ℕ → String → TaskInfo → TaskInfo
  failed_at now message info = record info {
    status = failed;
    end_time = some now;
    error = some message;
  }

  abbrev pub failure_data : String → String → Json
  failure_data message trace =
      object (field "error" (text message) (field "traceback" (text trace) end))

  unfoldable pub fail :
      String → (message trace : String) → Option String → ℕ → TaskService → TaskService
  fail task_id message trace caller_subject now s = check_tasks_complete (
      broadcast_task_event (event_json task_failed task_id now (some (failure_data message trace)))
        caller_subject (record s { tasks = adjust s.tasks task_id (failed_at now message) }))
