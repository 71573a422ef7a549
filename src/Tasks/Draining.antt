-- ===== src/Tasks/Draining.antt =====
-- The registry during a shutdown: no new task, and the event that ends the wait.
use zigbee_control.Prelude.{
  ◌+◌, ◌≤◌, suc, length, length-append, [], ◌∷◌, ◌≡◌, refl, ℕ, String, true, false, Option, none,
  arith, string_eq, nat_eq, ◌==◌, ◌||◌,
}
use zigbee_control.Json.{Json}
use zigbee_control.Dict.{get}
use zigbee_control.Lifecycle.{startup, prepare_shutdown, shutdown, after_shutdown}
use zigbee_control.Sse.{Env}
use zigbee_control.Tasks.{
  TaskService, BaseTask, active_task_count, check_tasks_complete, submit, start_task, cancel_task,
  remove_completed_task, shut_down, on_lifecycle_event, wait_for_tasks_completion,
}
use zigbee_control.Tasks.Worker.{can_complete, broadcast_task_event, begin, complete, fail}
use zigbee_control.Tasks.Registry.{Step, cancels, removes, begins, completes, fails, is_told}

module _ (env : Env) (isoformat : ℕ → String) where
  -- A run with the number of calls of `start_task` that have tested `_shutting_down` and not yet
  -- taken the lock, before and after it.
  pub data Run (n : ℕ) (s : TaskService) : ℕ → TaskService → Type 0 where
    here : Run n s n s
    checks : {m : ℕ} {t : TaskService} → Run n s m t → t.shutting_down ≡ false → Run n s (suc m) t
    submits :
        {m : ℕ} {t : TaskService} (id : String) (task : BaseTask) (subject : Option String)
        (now : ℕ)
        → Run n s (suc m) t
        → Run n s m (submit id task subject now t)
    steps : {m : ℕ} {t u : TaskService} → Run n s m t → Step env isoformat t u → Run n s m u

  pub Run-trans :
      {n m : ℕ} {s t : TaskService} {k : ℕ} {u : TaskService}
      → Run n s m t
      → Run m t k u
      → Run n s k u
  Run-trans r here = r
  Run-trans r (checks q free) = checks (Run-trans r q) free
  Run-trans r (submits id task subject now q) = submits id task subject now (Run-trans r q)
  Run-trans r (steps q st) = steps (Run-trans r q) st

  Step-draining :
      {s t : TaskService}
      → Step env isoformat s t
      → s.shutting_down ≡ true
      → (t.shutting_down ≡ true) × (t.submitted ≡ s.submitted)
  unfolding cancel_task remove_completed_task begin complete fail on_lifecycle_event shut_down
      broadcast_task_event check_tasks_complete
  Step-draining {s} (cancels id now) h = ground arith
  Step-draining {s} (removes id) h = ground arith
  Step-draining {s} (begins id subject now) h = (h, refl)
  Step-draining {s} (completes id result subject now) h = ground arith
  Step-draining {s} (fails id message trace subject now) h = ground arith
  Step-draining {s} (is_told startup) h = (h, refl)
  Step-draining {s} (is_told prepare_shutdown) h = (refl, refl)
  Step-draining {s} (is_told shutdown) h = (h, refl)
  Step-draining {s} (is_told after_shutdown) h = (h, refl)

  -- Once PREPARE_SHUTDOWN has been handled, every later state, whatever the calls and the workers do
  -- in between, refuses a new call of `start_task`, and the executor has been given at most one
  -- further task for each call that had passed the test of `_shutting_down` before.
  pub Run-draining :
      (s : TaskService) {t : TaskService} (n : ℕ) {m : ℕ} (id : String) (task : BaseTask)
      (subject : Option String) (now : ℕ)
      → Run n (on_lifecycle_event prepare_shutdown s) m t
      → (start_task id task subject now t ≡ none)
        × (length t.submitted + m ≤ length s.submitted + n)
  unfolding start_task on_lifecycle_event submit
  Run-draining s {t} n {m} id task subject now r =
      let (busy, bound) = all_draining r in (rw busy refl, bound)
    where
      all_draining :
          {u : TaskService} {k : ℕ}
          → Run n (on_lifecycle_event prepare_shutdown s) k u
          → (u.shutting_down ≡ true) × (length u.submitted + k ≤ length s.submitted + n)
      all_draining here = (refl, omega arith)
      all_draining (checks r free) = let (busy, bound) = all_draining r in absurd (cc (busy, free))
      all_draining (submits {m} {t} i task' subject' now' r) =
          let (busy, bound) = all_draining r in
          (busy, ground (arith, length-append t.submitted (i ∷ []), bound))
      all_draining (steps r st) =
          let (busy, bound) = all_draining r in
          let (still, kept) = Step-draining st busy in (still, rw kept bound)

  -- During a shutdown, after a task has failed, the wait that began before is over exactly if
  -- nothing was active, or the event was set, or no task is active any more.
  pub fail_ends_wait :
      (id message trace : String) (subject : Option String) (now : ℕ) (s : TaskService)
      → s.shutting_down ≡ true
      → let t = fail env isoformat id message trace subject now s in
        wait_for_tasks_completion s t
        ≡ (active_task_count s == 0 || s.tasks_complete || active_task_count t == 0)
  unfolding fail check_tasks_complete broadcast_task_event wait_for_tasks_completion
      active_task_count
  fail_ends_wait id message trace subject now s h = ground arith

  -- During a shutdown, after the code of a task that is not cancelled has returned, the wait that
  -- began before is over exactly if nothing was active, or the event was set, or no task is active
  -- any more.
  pub complete_ends_wait :
      (id : String) (result : Option Json) (subject : Option String) (now : ℕ) (s : TaskService)
      → s.shutting_down ≡ true
      → can_complete env isoformat (get s.tasks id) ≡ true
      → let t = complete env isoformat id result subject now s in
        wait_for_tasks_completion s t
        ≡ (active_task_count s == 0 || s.tasks_complete || active_task_count t == 0)
  unfolding complete check_tasks_complete broadcast_task_event wait_for_tasks_completion
      active_task_count
  complete_ends_wait id result subject now s h e = rw (e, complete) (ground arith)

-- `cancel_task` never ends the wait: if tasks were active when the wait began and the event was not
-- set, then after a cancellation the wait still waits, even when it ended the last active task.
pub cancel_keeps_waiting :
    (id : String) (now : ℕ) (s : TaskService)
    → s.tasks_complete ≡ false
    → active_task_count s == 0 ≡ false
    → wait_for_tasks_completion s (cancel_task id now s).1 ≡ false
unfolding cancel_task wait_for_tasks_completion
cancel_keeps_waiting id now s h e = rw e (ground arith)
