-- ===== src/Tasks/Endpoints.antt =====
-- The endpoints of app/api/tasks.py. `http_date` is the text that the JSON of an answer has for a
-- time.
use zigbee_control.Prelude.{
  ◌≡◌, refl, ap, ◌∙◌, ℕ, String, true, false, Option, none, some, if◌then◌else◌, ==-refl, string_eq,
  nat_eq, arith, Bool-cases, Option-cases, inl, inr,
}
use zigbee_control.Json.{Json, null, bool, text, object, field, end, opt_text}
use zigbee_control.Dict.{get, pop, get-adjust, get-pop}
use zigbee_control.Tasks.{
  TaskService, TaskInfo, TaskStatus, pending, running, completed, failed, cancelled, cancelled_at,
  is_finished, get_task_status, cancel_task, remove_completed_task,
}

pub record Answer : Type 0 where
  pub status_code : ℕ
  pub body : Json

unfoldable pub status_value : TaskStatus → String
status_value pending = "pending"
status_value running = "running"
status_value completed = "completed"
status_value failed = "failed"
status_value cancelled = "cancelled"

abbrev pub error_answer : String → Answer
error_answer message = record {
  status_code = 404;
  body = object (field "error" (text message) end);
}

abbrev pub success_answer : String → Answer
success_answer message = record {
  status_code = 200;
  body = object (field "success" (bool true) (field "message" (text message) end));
}

module _ (http_date : ℕ → String) where
  abbrev pub date_or_null : Option ℕ → Json
  date_or_null none = null
  date_or_null (some time) = text (http_date time)

  abbrev pub json_or_null : Option Json → Json
  json_or_null none = null
  json_or_null (some j) = j

  -- `model_dump`
  unfoldable pub task_json : (task_id : String) → TaskInfo → Json
  unfolding status_value
  task_json task_id info = object (
      field "task_id" (text task_id) (
        field "subject" (opt_text info.subject) (
          field "status" (text (status_value info.status)) (
            field "start_time" (text (http_date info.start_time)) (
              field "end_time" (date_or_null info.end_time) (
                field "result" (json_or_null info.result)
                  (field "error" (opt_text info.error) end)))))))

  unfoldable pub status_endpoint : (task_id : String) → TaskService → Answer
  unfolding task_json get_task_status
  status_endpoint task_id s = elim (get_task_status task_id s) [
    | none ↦ error_answer "Task not found"
    | some info ↦ record { status_code = 200; body = task_json task_id info }
  ]

unfoldable pub cancel_endpoint : (task_id : String) → (now : ℕ) → TaskService → Answer × TaskService
unfolding cancel_task
cancel_endpoint task_id now s =
    let (success, s') = cancel_task task_id now s in
    (
      if success
          then success_answer "Task cancellation requested"
          else error_answer "Task not found or cannot be cancelled",
      s',
    )

unfoldable pub remove_endpoint : (task_id : String) → TaskService → Answer × TaskService
unfolding remove_completed_task
remove_endpoint task_id s =
    let (success, s') = remove_completed_task task_id s in
    (
      if success
          then success_answer "Task removed from registry"
          else error_answer "Task not found or not completed",
      s',
    )

cancel_ended :
    (id : String) (later : ℕ) (s : TaskService) (info : TaskInfo)
    → get s.tasks id ≡ some info
    → is_finished info.status ≡ true
    → cancel_endpoint id later s ≡ (error_answer "Task not found or cannot be cancelled", s)
unfolding cancel_endpoint
cancel_ended id later s info stored ended = elim (Option-cases (get s.task_instances id)) [
  | inl gone ↦ rw (gone, cancel_task) refl
  | inr (task, found) ↦ rw (found, cancel_task) (rw stored (rw ended refl))
]

remove_ended :
    (id : String) (s : TaskService) (info : TaskInfo)
    → get s.tasks id ≡ some info
    → is_finished info.status ≡ true
    → remove_endpoint id s ≡ (
      success_answer "Task removed from registry",
      record s { tasks = pop s.tasks id; task_instances = pop s.task_instances id },
    )
unfolding remove_endpoint
remove_ended id s info stored ended = rw (stored, remove_completed_task) (rw ended refl)

cancel_accepted :
    (id : String) (now : ℕ) (s : TaskService)
    → (cancel_endpoint id now s).0.status_code ≡ 200
    → (info : TaskInfo) × (get s.tasks id ≡ some info)
      × (is_finished info.status ≡ false)
      × (get (cancel_endpoint id now s).1.tasks id ≡ some (cancelled_at now info))
unfolding cancel_endpoint
cancel_accepted id now s = elim (Option-cases (get s.task_instances id)) [
  | inl gone ↦ rw (gone, cancel_task) (λ h. absurd (omega (arith, h)))
  | inr (task, found) ↦ elim (Option-cases (get s.tasks id)) [
    | inl missing ↦ rw (found, cancel_task) (rw missing (λ h. absurd (omega (arith, h))))
    | inr (info, stored) ↦ elim (Bool-cases (is_finished info.status)) [
      | inl ended ↦ rw (found, cancel_task) (rw stored (rw ended (λ h. absurd (omega (arith, h)))))
      | inr active ↦
          rw (found, cancel_task)
            (rw stored (
              rw active (λ h. (
                info,
                refl,
                active,
                get-adjust s.tasks id id (cancelled_at now) ∙ rw (==-refl id) (rw stored refl),
              ))))
    ]
  ]
]

module _ (http_date : ℕ → String) where
  status_stored :
      (id : String) (s : TaskService) (info : TaskInfo)
      → get s.tasks id ≡ some info
      → status_endpoint http_date id s
        ≡ record { status_code = 200; body = task_json http_date id info }
  unfolding status_endpoint
  status_stored id s info stored = rw (stored, status_endpoint) refl

  status_missing :
      (id : String) (s : TaskService)
      → get s.tasks id ≡ none
      → (status_endpoint http_date id s).status_code ≡ 404
  unfolding status_endpoint
  status_missing id s missing = rw (missing, status_endpoint) refl

  -- A cancellation that is answered 200 was of a task that had not ended. After it the task is reported
  -- as cancelled with its end time, a further cancellation is answered 404 and changes nothing, and a
  -- removal is answered 200 and after it the task is not found.
  pub cancel_endpoint_lifecycle :
      (id : String) (now later : ℕ) (s : TaskService)
      → (cancel_endpoint id now s).0.status_code ≡ 200
      → let after = (cancel_endpoint id now s).1 in
        let removed = (remove_endpoint id after).1 in
        (info : TaskInfo) × (get s.tasks id ≡ some info)
        × (is_finished info.status ≡ false)
        × (status_endpoint http_date id after
            ≡ record { status_code = 200; body = task_json http_date id (cancelled_at now info) })
        × ((cancel_endpoint id later after).0.status_code ≡ 404)
        × ((cancel_endpoint id later after).1 ≡ after)
        × ((remove_endpoint id after).0.status_code ≡ 200)
        × ((status_endpoint http_date id removed).status_code ≡ 404)
  cancel_endpoint_lifecycle id now later s accepted =
      let (info, stored, active, marked) = cancel_accepted id now s accepted in
      let after = (cancel_endpoint id now s).1 in
      let again = cancel_ended id later after (cancelled_at now info) marked refl in
      let gone = remove_ended id after (cancelled_at now info) marked refl in
      (
        info,
        stored,
        active,
        status_stored id after (cancelled_at now info) marked,
        ap (λ r. r.0.status_code) again,
        ap (λ r. r.1) again,
        ap (λ r. r.0.status_code) gone,
        status_missing id (remove_endpoint id after).1
            (ap (λ r. get r.1.tasks id) gone ∙ get-pop after.tasks id id ∙ rw (==-refl id) refl),
      )
