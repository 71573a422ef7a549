-- ===== src/Tasks.antt =====
-- app/services/task_service.py, app/schemas/task_schema.py and the cancellation flag of
-- app/services/base_task.py: the registry of background tasks. `Worker` has the sections of a worker
-- thread, the other modules the proofs. Time is a number of seconds.
mod Tests
pub mod Worker
pub mod Registry
pub mod Cancelling
pub mod Cleanup
pub mod Draining
pub mod Progress
pub mod Endpoints
pub mod Closing
use zigbee_control.Prelude.{
  ℕ, ◌+◌, String, Bool, true, false, not, ◌&&◌, ◌||◌, Option, none, some, List, [], ◌∷◌, ◌++◌, map,
  if◌then◌else◌, leb, ◌==◌, nat_eq, string_eq, count_if, select,
}
use zigbee_control.Json.{Json, null, text, object, field, end}
use zigbee_control.Dict.{Dict, get, put, pop, adjust}
use zigbee_control.Lifecycle.{LifecycleEvent, startup, prepare_shutdown, shutdown, after_shutdown}
use zigbee_control.Sse.{Manager, Env}
use zigbee_control.Sse.Sending.{send_event}

pub data TaskStatus : Type 0 where
  pending running completed failed cancelled : TaskStatus

pub data TaskEventType : Type 0 where
  task_started progress_update task_completed task_failed : TaskEventType

unfoldable pub event_type_value : TaskEventType → String
event_type_value task_started = "task_started"
event_type_value progress_update = "progress_update"
event_type_value task_completed = "task_completed"
event_type_value task_failed = "task_failed"

pub record TaskInfo : Type 0 where
  pub subject : Option String
  pub status : TaskStatus
  pub start_time : ℕ
  pub end_time : Option ℕ
  pub result : Option Json
  pub error : Option String

-- A `BaseTask`, known by a number, and its event `_cancelled`.
pub record BaseTask : Type 0 where
  pub code : ℕ
  pub is_cancelled : Bool

-- `submitted` are the ids handed to the executor; `active_at_shutdown` is the gauge.
pub record TaskService : Type 0 where
  pub cleanup_interval : ℕ
  pub tasks : Dict String TaskInfo
  pub task_instances : Dict String BaseTask
  pub submitted : List String
  pub shutting_down : Bool
  pub stop_cleanup : Bool
  pub tasks_complete : Bool
  pub active_at_shutdown : ℕ
  pub sse : Manager

-- `status in [COMPLETED, FAILED, CANCELLED]`
abbrev pub is_finished : TaskStatus → Bool
is_finished pending = false
is_finished running = false
is_finished _ = true

-- `status in [PENDING, RUNNING]`
abbrev pub is_active : TaskStatus → Bool
is_active pending = true
is_active running = true
is_active _ = false

abbrev pub is_cancelled_status : TaskStatus → Bool
is_cancelled_status cancelled = true
is_cancelled_status _ = false

-- `_get_active_task_count`
unfoldable pub active_task_count : TaskService → ℕ
active_task_count s = count_if (λ p. is_active (p.1).status) s.tasks

-- `_check_tasks_complete`
unfoldable pub check_tasks_complete : TaskService → TaskService
check_tasks_complete s =
    if s.shutting_down && active_task_count s == 0 then record s { tasks_complete = true } else s

abbrev pub new_task : Option String → ℕ → TaskInfo
new_task caller_subject now = record {
  subject = caller_subject;
  status = pending;
  start_time = now;
  end_time = none;
  result = none;
  error = none;
}

-- The locked section of `start_task`.
unfoldable pub submit :
    (task_id : String)
    → BaseTask
    → (caller_subject : Option String) → (now : ℕ) → TaskService
    → TaskService
submit task_id task caller_subject now s = record s {
  tasks = put s.tasks task_id (new_task caller_subject now);
  task_instances = put s.task_instances task_id task;
  submitted = s.submitted ++ task_id ∷ [];
}

-- The test of `_shutting_down` comes before the lock is taken.
unfoldable pub start_task :
    (task_id : String)
    → BaseTask
    → (caller_subject : Option String) → (now : ℕ) → TaskService
    → Option TaskService
unfolding submit
start_task task_id task caller_subject now s =
    if s.shutting_down then none else some (submit task_id task caller_subject now s)

unfoldable pub get_task_status : String → TaskService → Option TaskInfo
get_task_status task_id s = get s.tasks task_id

abbrev pub cancelled_at : ℕ → TaskInfo → TaskInfo
cancelled_at now info = record info { status = cancelled; end_time = some now }

abbrev pub cancel_flag : BaseTask → BaseTask
cancel_flag task = record task { is_cancelled = true }

abbrev pub can_cancel : Option BaseTask → Option TaskInfo → Bool
can_cancel none info = false
can_cancel (some task) none = false
can_cancel (some task) (some info) = not (is_finished info.status)

unfoldable pub cancel_task : String → ℕ → TaskService → Bool × TaskService
cancel_task task_id now s =
    if can_cancel (get s.task_instances task_id) (get s.tasks task_id)
    then (
      true,
      record s {
        tasks = adjust s.tasks task_id (cancelled_at now);
        task_instances = adjust s.task_instances task_id cancel_flag;
      },
    )
    else (false, s)

abbrev pub is_removable : Option TaskInfo → Bool
is_removable none = false
is_removable (some info) = is_finished info.status

unfoldable pub remove_completed_task : String → TaskService → Bool × TaskService
remove_completed_task task_id s =
    if is_removable (get s.tasks task_id)
    then (
      true,
      record s { tasks = pop s.tasks task_id; task_instances = pop s.task_instances task_id },
    )
    else (false, s)

-- Whether `_cleanup_completed_tasks` puts the task on its list.
abbrev pub has_aged : (interval now : ℕ) → Option ℕ → Bool
has_aged interval now none = false
has_aged interval now (some finished) = leb (finished + interval) now

abbrev pub is_expired : (interval now : ℕ) → TaskInfo → Bool
is_expired interval now info = is_finished info.status && has_aged interval now info.end_time

unfoldable pub remove_each : List String → TaskService → TaskService
remove_each [] s = s
remove_each (task_id ∷ rest) s = remove_each rest (remove_completed_task task_id s).1

unfoldable pub cleanup_completed_tasks : ℕ → TaskService → TaskService
cleanup_completed_tasks now s =
    remove_each (map (λ p. p.0) (select (λ p. is_expired s.cleanup_interval now p.1) s.tasks)) s

-- `shutdown`, after the executor has waited for the running tasks.
unfoldable pub shut_down : TaskService → TaskService
shut_down s = record s { stop_cleanup = true; tasks = []; task_instances = [] }

-- `_on_lifecycle_event`
unfoldable pub on_lifecycle_event : LifecycleEvent → TaskService → TaskService
on_lifecycle_event prepare_shutdown s = record s {
  shutting_down = true;
  active_at_shutdown = active_task_count s;
}
on_lifecycle_event shutdown s = shut_down s
on_lifecycle_event _ s = s

-- `_wait_for_tasks_completion`: `s` is the state when the wait begins, and `later` the state when
-- the event is set or the timeout is over.
unfoldable pub wait_for_tasks_completion : TaskService → TaskService → Bool
wait_for_tasks_completion s later = active_task_count s == 0 || later.tasks_complete
