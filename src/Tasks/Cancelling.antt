-- ===== src/Tasks/Cancelling.antt =====
-- `cancel_task` and the sections of `_execute_task` that meet a cancelled task.
use zigbee_control.Prelude.{
  ◌≡◌, refl, ℕ, String, true, ◌&&◌, Option, none, some, if◌then◌else◌, arith, ==-refl, string_eq,
  nat_eq, ◌==◌, Bool-cases, Option-cases, inl, inr,
}
use zigbee_control.Json.{Json}
use zigbee_control.Dict.{get, adjust, get-adjust, map_option}
use zigbee_control.Sse.{Env}
use zigbee_control.Tasks.{
  TaskService, TaskInfo, TaskStatus, cancelled, completed, failed, running, is_finished, can_cancel,
  check_tasks_complete, get_task_status, cancel_task, cancelled_at,
}
use zigbee_control.Tasks.Worker.{
  can_complete, broadcast_task_event, begin, complete, completed_at, fail, failed_at,
}

-- What `cancel_task` promises: the same answer for the task's data and its object, and nothing
-- changed for another id.
unfoldable pub cancelled_view : String → ℕ → TaskService → String → Option TaskInfo
cancelled_view id now s k =
    if can_cancel (get s.task_instances id) (get s.tasks id) && id == k
    then map_option (cancelled_at now) (get s.tasks k)
    else get s.tasks k

-- `cancel_task` changes the data of the named task alone, to CANCELLED with an end time, and only
-- when both tables have the task and its status is not final; then, and only then, it answers True.
pub cancel_task_exact :
    (id : String) (now : ℕ) (s : TaskService)
    → ((cancel_task id now s).0 ≡ can_cancel (get s.task_instances id) (get s.tasks id))
      × ((k : String) → get_task_status k (cancel_task id now s).1 ≡ cancelled_view id now s k)
unfolding cancel_task cancelled_view get_task_status
cancel_task_exact id now s =
    elim (Bool-cases (can_cancel (get s.task_instances id) (get s.tasks id))) [
      | inl found ↦ rw (found, cancel_task) (refl, λ k. simp get-adjust refl)
      | inr missing ↦ rw (missing, cancel_task) (refl, λ k. refl)
    ]

-- The status that `get_task_status` reports.
unfoldable pub reported : Option TaskInfo → Option TaskStatus
reported none = none
reported (some info) = some info.status

module _ (env : Env) (isoformat : ℕ → String) where
  check-tasks : (s : TaskService) → (check_tasks_complete s).tasks ≡ s.tasks
  unfolding check_tasks_complete
  check-tasks s = ground arith

  -- What a completion, and a failure, write to the table.
  complete-tasks :
      (id : String) (result : Option Json) (subject : Option String) (now : ℕ) (s : TaskService)
      → can_complete env isoformat (get s.tasks id) ≡ true
      → (complete env isoformat id result subject now s).tasks
        ≡ adjust s.tasks id (completed_at env isoformat now result)
  unfolding complete broadcast_task_event
  complete-tasks id result subject now s e = rw (e, complete) (rw check-tasks refl)

  fail-tasks :
      (id message trace : String) (subject : Option String) (now : ℕ) (s : TaskService)
      → (fail env isoformat id message trace subject now s).tasks
        ≡ adjust s.tasks id (failed_at env isoformat now message)
  unfolding fail broadcast_task_event
  fail-tasks id message trace subject now s = rw check-tasks refl

  cancel-submitted :
      (id : String) (now : ℕ) (s : TaskService) → (cancel_task id now s).1.submitted ≡ s.submitted
  unfolding cancel_task
  cancel-submitted id now s = ground arith

  -- A cancellation that answers True leaves the task CANCELLED.
  cancelled_status :
      (id : String) (now : ℕ) (s : TaskService)
      → (cancel_task id now s).0 ≡ true
      → (info : TaskInfo) × (get (cancel_task id now s).1.tasks id ≡ some (cancelled_at now info))
  unfolding cancel_task
  cancelled_status id now s = elim (Option-cases (get s.task_instances id)) [
    | inl e ↦ rw (e, cancel_task) (λ h. cc)
    | inr (task, e) ↦ elim (Option-cases (get s.tasks id)) [
      | inl f ↦ rw (e, f, cancel_task) (λ h. cc)
      | inr (info, f) ↦ elim (Bool-cases (is_finished info.status)) [
        | inl final ↦ rw (e, f, cancel_task) (rw final (λ h. cc))
        | inr open_task ↦
            rw (e, f, cancel_task)
              (rw open_task (λ h. (info, simp (get-adjust, f, ==-refl id) refl)))
      ]
    ]
  ]

  -- When the code of a cancelled task returns, its status stays CANCELLED, its result is dropped,
  -- and no event is sent.
  pub complete_cancelled :
      (id : String) (result : Option Json) (subject : Option String) (now : ℕ) (s : TaskService)
      (info : TaskInfo)
      → get s.tasks id ≡ some info
      → info.status ≡ cancelled
      → complete env isoformat id result subject now s ≡ s
  unfolding complete
  complete_cancelled id result subject now s info e c = rw (e, complete) (rw c refl)

  -- A cancellation that answers True takes nothing back from the executor. If the worker of the task
  -- begins after it, the task is RUNNING again: it ends as COMPLETED if its code then returns, and as
  -- FAILED if its code raises.
  pub cancelled_pending_runs :
      (id : String) (now start : ℕ) (subject : Option String) (s : TaskService)
      → (cancel_task id now s).0 ≡ true
      → let cancelled_at_once = (cancel_task id now s).1 in
        let begun = begin env isoformat id subject start cancelled_at_once in
        (cancelled_at_once.submitted ≡ s.submitted)
        × (reported (get_task_status id begun) ≡ some running)
        × ((result : Option Json) (end_at : ℕ)
            → reported (get_task_status id (complete env isoformat id result subject end_at begun))
              ≡ some completed)
        × ((message trace : String) (end_at : ℕ)
            → reported
                (get_task_status id (fail env isoformat id message trace subject end_at begun))
              ≡ some failed)
  unfolding cancel_task begin complete fail check_tasks_complete broadcast_task_event
      get_task_status reported
  cancelled_pending_runs id now start subject s h =
      let (info, e) = cancelled_status id now s h in
      (
        cancel-submitted id now s,
        simp (get-adjust, e, ==-refl id) refl,
        λ result end_at.
            rw
              (complete-tasks id result subject end_at
                (begin env isoformat id subject start (cancel_task id now s).1)
                (simp (get-adjust, e, ==-refl id) refl))
              (simp (get-adjust, e, ==-refl id) refl),
        λ message trace end_at. rw fail-tasks (simp (get-adjust, e, ==-refl id) refl),
      )

  -- A task that is cancelled while it runs and then raises ends as FAILED, not as CANCELLED.
  pub cancelled_failing_fails :
      (id message trace : String) (subject : Option String) (now end_at : ℕ) (s : TaskService)
      → (cancel_task id now s).0 ≡ true
      → reported (
          get_task_status id
            (fail env isoformat id message trace subject end_at (cancel_task id now s).1))
        ≡ some failed
  unfolding cancel_task fail check_tasks_complete broadcast_task_event get_task_status reported
  cancelled_failing_fails id message trace subject now end_at s h =
      let (info, e) = cancelled_status id now s h in
      rw fail-tasks (simp (get-adjust, e, ==-refl id) refl)
