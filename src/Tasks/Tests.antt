-- ===== src/Tasks/Tests.antt =====
-- The theorems about the task registry at concrete states.
use zigbee_control.Prelude.{
  ◌≡◌, refl, String, ℕ, true, false, Option, none, some, [], ◌∷◌, string_eq, nat_eq,
}
use zigbee_control.Json.{Json}
use zigbee_control.Dict.{get}
use zigbee_control.Lifecycle.{prepare_shutdown}
use zigbee_control.Sse.{Env, init, status}
use zigbee_control.Tasks.{
  TaskService, TaskInfo, BaseTask, cancelled, completed, failed, running, pending, get_task_status,
  cancel_task, is_finished, cancelled_at, cleanup_completed_tasks, active_task_count,
  on_lifecycle_event, wait_for_tasks_completion,
}
use zigbee_control.Tasks.Endpoints.{
  cancel_endpoint, remove_endpoint, status_endpoint, task_json, cancel_endpoint_lifecycle,
}
use zigbee_control.Tasks.Worker.{begin, complete, fail}
use zigbee_control.Tasks.Registry.{IsRegistry, done, next, cancels, is_told, Steps-IsRegistry}
use zigbee_control.Tasks.Cancelling.{reported, cancelled_pending_runs}
use zigbee_control.Tasks.Cleanup.{cleanup_exact}
use zigbee_control.Tasks.Draining.{cancel_keeps_waiting}

abbrev answering : Env
answering = record { dumps = λ j. "{}"; gateway = λ h p. status 200; invoke = λ k r m. (true, m) }

abbrev isoformat : ℕ → String
isoformat now = "2025-01-01T00:00:00"

abbrev empty : TaskService
empty = record {
  cleanup_interval = 600;
  tasks = [];
  task_instances = [];
  submitted = [];
  shutting_down = false;
  stop_cleanup = false;
  tasks_complete = false;
  active_at_shutdown = 0;
  sse = init;
}

abbrev job : BaseTask
job = record { code = 1; is_cancelled = false }

abbrev pending_info : TaskInfo
pending_info = record {
  subject = none;
  status = pending;
  start_time = 5;
  end_time = none;
  result = none;
  error = none;
}

abbrev done_info : TaskInfo
done_info = record pending_info { status = completed; end_time = some 10 }

abbrev cancelled_info : TaskInfo
cancelled_info = record pending_info { status = cancelled; end_time = some 10 }

abbrev one_task : TaskService
one_task = record empty { tasks = ("a", pending_info) ∷ []; task_instances = ("a", job) ∷ [] }

abbrev ended_task : TaskService
ended_task = record one_task { tasks = ("a", done_info) ∷ [] }

abbrev cancelled_task : TaskService
cancelled_task = record one_task { tasks = ("a", cancelled_info) ∷ [] }

abbrev draining : TaskService
draining = record one_task { shutting_down = true }

empty-IsRegistry : IsRegistry empty
unfolding get
empty-IsRegistry = record {
  paired = λ t. refl;
  ended = λ t info e. cc;
  signalled = λ e. cc;
  distinct = tt;
}

Steps-IsRegistry_example :
    IsRegistry (cancel_task "a" 9 (on_lifecycle_event prepare_shutdown empty)).1
Steps-IsRegistry_example =
    Steps-IsRegistry answering isoformat
      (next (next done (is_told prepare_shutdown)) (cancels "a" 9)) empty-IsRegistry

cancelled_pending_runs_example :
    let cancelled_at_once = (cancel_task "a" 9 one_task).1 in
    let begun = begin answering isoformat "a" none 10 cancelled_at_once in
    (cancelled_at_once.submitted ≡ one_task.submitted)
    × (reported (get_task_status "a" begun) ≡ some running)
    × ((result : Option Json) (end_at : ℕ)
        → reported (get_task_status "a" (complete answering isoformat "a" result none end_at begun))
          ≡ some completed)
    × ((message trace : String) (end_at : ℕ)
        → reported
            (get_task_status "a" (fail answering isoformat "a" message trace none end_at begun))
          ≡ some failed)
unfolding cancel_task get
cancelled_pending_runs_example =
    cancelled_pending_runs answering isoformat "a" 9 10 none one_task refl

cleanup_exact_example : get_task_status "a" (cleanup_completed_tasks 700 ended_task) ≡ none
unfolding get
cleanup_exact_example = cleanup_exact 700 ended_task "a" (refl, tt)

cancel_keeps_waiting_example :
    wait_for_tasks_completion draining (cancel_task "a" 9 draining).1 ≡ false
unfolding active_task_count
cancel_keeps_waiting_example = cancel_keeps_waiting "a" 9 draining refl refl

cancel_endpoint_lifecycle_example :
    let after = (cancel_endpoint "a" 9 one_task).1 in
    let removed = (remove_endpoint "a" after).1 in
    (info : TaskInfo) × (get one_task.tasks "a" ≡ some info)
    × (is_finished info.status ≡ false)
    × (status_endpoint isoformat "a" after
        ≡ record { status_code = 200; body = task_json isoformat "a" (cancelled_at 9 info) })
    × ((cancel_endpoint "a" 20 after).0.status_code ≡ 404)
    × ((cancel_endpoint "a" 20 after).1 ≡ after)
    × ((remove_endpoint "a" after).0.status_code ≡ 200)
    × ((status_endpoint isoformat "a" removed).status_code ≡ 404)
unfolding cancel_endpoint get
cancel_endpoint_lifecycle_example = cancel_endpoint_lifecycle isoformat "a" 9 20 one_task refl
