-- ===== src/Tasks/Registry.antt =====
-- What always holds of the task registry, whatever order the calls and the workers' sections come in.
use zigbee_control.Prelude.{
  ◌≡◌, refl, ℕ, String, true, ◌&&◌, Option, some, if◌then◌else◌, arith, string_eq, nat_eq, ◌==◌,
  Bool-cases, Option-cases, inl, inr, subst,
}
use mathlib.Core.Option.{some-injective}
use zigbee_control.Json.{Json}
use zigbee_control.Dict.{
  get, adjust, get-put, get-pop, get-adjust, Distinct, put-Distinct, pop-Distinct, adjust-Distinct,
  is_some, map_option,
}
use zigbee_control.Lifecycle.{LifecycleEvent, startup, prepare_shutdown, shutdown, after_shutdown}
use zigbee_control.Sse.{Env}
use zigbee_control.Tasks.{
  TaskService, TaskInfo, new_task, running, BaseTask, is_finished, can_cancel, is_removable,
  active_task_count, check_tasks_complete, submit, cancel_task, cancelled_at, remove_completed_task,
  shut_down, on_lifecycle_event,
}
use zigbee_control.Tasks.Worker.{
  can_complete, broadcast_task_event, begin, complete, completed_at, fail, failed_at,
}

-- The registry knows the same tasks in both tables, a finished task has an end time, and the
-- event that ends the shutdown wait is set only during a shutdown.
pub record IsRegistry (s : TaskService) : Type 0 where
  pub paired : (t : String) → is_some (get s.tasks t) ≡ is_some (get s.task_instances t)
  pub ended :
      (t : String) (info : TaskInfo)
      → get s.tasks t ≡ some info
      → is_finished info.status ≡ true
      → is_some info.end_time ≡ true
  pub signalled : s.tasks_complete ≡ true → s.shutting_down ≡ true
  pub distinct : Distinct s.tasks

module _ (env : Env) (isoformat : ℕ → String) where
  -- One call but `start_task`, or one section of a worker thread.
  pub data Step (s : TaskService) : TaskService → Type 0 where
    cancels : (id : String) (now : ℕ) → Step s (cancel_task id now s).1
    removes : (id : String) → Step s (remove_completed_task id s).1
    begins :
        (id : String) (subject : Option String) (now : ℕ)
        → Step s (begin env isoformat id subject now s)
    completes :
        (id : String) (result : Option Json) (subject : Option String) (now : ℕ)
        → Step s (complete env isoformat id result subject now s)
    fails :
        (id message trace : String) (subject : Option String) (now : ℕ)
        → Step s (fail env isoformat id message trace subject now s)
    is_told : (event : LifecycleEvent) → Step s (on_lifecycle_event event s)

  -- A start may have tested `_shutting_down` long before its locked section.
  pub data Steps (s : TaskService) : TaskService → Type 0 where
    done : Steps s s
    next : {t u : TaskService} → Steps s t → Step t u → Steps s u
    submits :
        {t : TaskService} (id : String) (task : BaseTask) (subject : Option String) (now : ℕ)
        → Steps s t
        → Steps s (submit id task subject now t)

  submit-IsRegistry :
      (id : String) (task : BaseTask) (subject : Option String) (now : ℕ) (s : TaskService)
      → IsRegistry s
      → IsRegistry (submit id task subject now s)
  unfolding submit
  submit-IsRegistry id task subject now s v = record {
    paired = λ k. simp get-put (ground (arith, v.paired k));
    ended = λ k info. simp get-put (by_key k info);
    signalled = v.signalled;
    distinct = put-Distinct s.tasks id (new_task subject now) v.distinct;
  }
    where
      by_key :
          (k : String) (info : TaskInfo)
          → (if id == k then some (new_task subject now) else get s.tasks k) ≡ some info
          → is_finished info.status ≡ true
          → is_some info.end_time ≡ true
      by_key k info = elim (Bool-cases (id == k)) [
        | inl e ↦ rw e (λ f.
            subst (λ i. is_finished i.status ≡ true → is_some i.end_time ≡ true)
              (some-injective _ _ f) (λ c. cc))
        | inr e ↦ rw e (v.ended k info)
      ]

  -- A change of one task's data that keeps "finished means ended".
  adjusted-IsRegistry :
      (id : String) (f : TaskInfo → TaskInfo) (s : TaskService)
      → ((info : TaskInfo)
          → (is_finished info.status ≡ true → is_some info.end_time ≡ true)
          → is_finished (f info).status ≡ true
          → is_some (f info).end_time ≡ true)
      → IsRegistry s
      → IsRegistry (record s { tasks = adjust s.tasks id f })
  adjusted-IsRegistry id f s keeps v = record {
    paired = λ k. rw get-adjust (ground (arith, v.paired k));
    ended = λ k info. rw get-adjust (by_key k info);
    signalled = v.signalled;
    distinct = adjust-Distinct s.tasks id f v.distinct;
  }
    where
      by_key :
          (k : String) (info : TaskInfo)
          → (if id == k then map_option f (get s.tasks k) else get s.tasks k) ≡ some info
          → is_finished info.status ≡ true
          → is_some info.end_time ≡ true
      by_key k info = elim (Option-cases (get s.tasks k)) [
        | inl e ↦ ground (arith, v.ended k info)
        | inr (old, e) ↦ ground (arith, v.ended k info, v.ended k old e, keeps old)
      ]

  cancel_task-IsRegistry :
      (id : String) (now : ℕ) (s : TaskService) → IsRegistry s → IsRegistry (cancel_task id now s).1
  unfolding cancel_task
  cancel_task-IsRegistry id now s v =
      elim (Bool-cases (can_cancel (get s.task_instances id) (get s.tasks id))) [
        | inl found ↦
            let tasks_only = adjusted-IsRegistry id (cancelled_at now) s (λ info _ _. refl) v in
            rw (found, cancel_task)
              (record {
                paired = λ k. simp get-adjust (ground (arith, v.paired k));
                ended = tasks_only.ended;
                signalled = v.signalled;
                distinct = tasks_only.distinct;
              })
        | inr missing ↦ rw (missing, cancel_task) v
      ]

  remove-IsRegistry :
      (id : String) (s : TaskService) → IsRegistry s → IsRegistry (remove_completed_task id s).1
  unfolding remove_completed_task
  remove-IsRegistry id s v = elim (Bool-cases (is_removable (get s.tasks id))) [
    | inl old ↦
        rw (old, remove_completed_task)
          (record {
            paired = λ k. simp get-pop (ground (arith, v.paired k));
            ended = λ k info. simp get-pop (ground (arith, v.ended k info));
            signalled = v.signalled;
            distinct = pop-Distinct s.tasks id v.distinct;
          })
    | inr kept ↦ rw (kept, remove_completed_task) v
  ]

  check-IsRegistry : (s : TaskService) → IsRegistry s → IsRegistry (check_tasks_complete s)
  unfolding check_tasks_complete
  check-IsRegistry s v = elim (Bool-cases (s.shutting_down && active_task_count s == 0)) [
    | inl last ↦
        rw (last, check_tasks_complete)
          (record {
            paired = v.paired;
            ended = v.ended;
            signalled = λ _. ground arith;
            distinct = v.distinct;
          })
    | inr other ↦ rw (other, check_tasks_complete) v
  ]

  broadcast-IsRegistry :
      (event : Json) (subject : Option String) (s : TaskService)
      → IsRegistry s
      → IsRegistry (broadcast_task_event env isoformat event subject s)
  unfolding broadcast_task_event
  broadcast-IsRegistry event subject s v = record {
    paired = v.paired;
    ended = v.ended;
    signalled = v.signalled;
    distinct = v.distinct;
  }

  complete-IsRegistry :
      (id : String) (result : Option Json) (subject : Option String) (now : ℕ) (s : TaskService)
      → IsRegistry s
      → IsRegistry (complete env isoformat id result subject now s)
  unfolding complete
  complete-IsRegistry id result subject now s v =
      elim (Bool-cases (can_complete env isoformat (get s.tasks id))) [
        | inl open_task ↦
            rw (open_task, complete)
              (check-IsRegistry _ (
                broadcast-IsRegistry _ subject _ (
                  adjusted-IsRegistry id (completed_at env isoformat now result) s
                    (λ info _ _. refl) v)))
        | inr closed ↦ rw (closed, complete) v
      ]

  event-IsRegistry :
      (event : LifecycleEvent) (s : TaskService)
      → IsRegistry s
      → IsRegistry (on_lifecycle_event event s)
  unfolding on_lifecycle_event shut_down get
  event-IsRegistry startup s v = v
  event-IsRegistry prepare_shutdown s v = record {
    paired = v.paired;
    ended = v.ended;
    signalled = λ _. refl;
    distinct = v.distinct;
  }
  event-IsRegistry shutdown s v = record {
    paired = λ k. refl;
    ended = λ k info e. cc;
    signalled = v.signalled;
    distinct = tt;
  }
  event-IsRegistry after_shutdown s v = v

  Step-IsRegistry : {s t : TaskService} → Step s t → IsRegistry s → IsRegistry t
  unfolding begin fail
  Step-IsRegistry {s} (cancels id now) v = cancel_task-IsRegistry id now s v
  Step-IsRegistry {s} (removes id) v = remove-IsRegistry id s v
  Step-IsRegistry {s} (begins id subject now) v =
      broadcast-IsRegistry _ subject _
        (adjusted-IsRegistry id (λ info. record info { status = running }) s (λ info _ h. cc) v)
  Step-IsRegistry {s} (completes id result subject now) v =
      complete-IsRegistry id result subject now s v
  Step-IsRegistry {s} (fails id message trace subject now) v = check-IsRegistry _ (
      broadcast-IsRegistry _ subject _
        (adjusted-IsRegistry id (failed_at env isoformat now message) s (λ info _ _. refl) v))
  Step-IsRegistry {s} (is_told event) v = event-IsRegistry event s v

  -- After any sequence of calls and worker sections, in any order: a task is in both tables or in
  -- none and stands once, a task whose status is final has an end time, so that the clean-up can
  -- remove it, and the event that ends the shutdown wait is set only during a shutdown.
  pub Steps-IsRegistry : {s t : TaskService} → Steps s t → IsRegistry s → IsRegistry t
  Steps-IsRegistry done v = v
  Steps-IsRegistry (next r st) v = Step-IsRegistry st (Steps-IsRegistry r v)
  Steps-IsRegistry (submits {t} id task subject now r) v =
      submit-IsRegistry id task subject now t (Steps-IsRegistry r v)
