-- ===== src/Tasks/Closing.antt =====
-- The task service from its start to the end of the shutdown.
use zigbee_control.Prelude.{◌≡◌, ℕ, ◌+◌, ◌≤◌, String, false, Option, none, List, [], ◌∷◌, length}
use zigbee_control.Lifecycle.{LifecycleEvent, startup, prepare_shutdown, shutdown, after_shutdown}
use zigbee_control.Lifecycle.Hearing.{
  Hears, quiet, moves, told, whole_life, Hears-first, Hears-trans,
}
use zigbee_control.Sse.{Env}
use zigbee_control.Tasks.{TaskService, BaseTask, start_task, on_lifecycle_event}
use zigbee_control.Tasks.Registry.{is_told}
use zigbee_control.Tasks.Draining.{Run, here, steps, Run-trans, Run-draining}

module _ (env : Env) (isoformat : ℕ → String) where
  -- The task service with the number of calls of `start_task` between the test and the lock.
  abbrev pub Moves : ℕ × TaskService → ℕ × TaskService → Type 0
  Moves p q = Run env isoformat p.0 p.1 q.0 q.1

  abbrev pub tell : LifecycleEvent → ℕ × TaskService → ℕ × TaskService
  tell event p = (p.0, on_lifecycle_event event p.1)

  Hears-Run :
      {p q : ℕ × TaskService} {events : List LifecycleEvent}
      → Hears Moves tell p events q
      → Run env isoformat p.0 p.1 q.0 q.1
  Hears-Run quiet = here
  Hears-Run (moves m r) = Run-trans env isoformat m (Hears-Run r)
  Hears-Run (told event r) = Run-trans env isoformat (steps here (is_told event)) (Hears-Run r)

  -- `(n, u)` is the state in which PREPARE_SHUTDOWN was told.
  abbrev pub Drains : (before after : ℕ × TaskService) → Type 0
  Drains p q =
      ((id : String) (task : BaseTask) (subject : Option String) (now : ℕ)
        → start_task id task subject now q.1 ≡ none)
      × (n : ℕ) × (u : TaskService) × Hears Moves tell p (startup ∷ []) (n, u)
      × Hears Moves tell (tell prepare_shutdown (n, u)) (shutdown ∷ after_shutdown ∷ []) q
      × (length q.1.submitted + q.0 ≤ length u.submitted + n)

  pub whole_life-Drains : {p q : ℕ × TaskService} → Hears Moves tell p whole_life q → Drains p q
  whole_life-Drains {p} {q} life =
      let (young, before, rest) = Hears-first Moves tell life in
      let (u, between, rest') = Hears-first Moves tell rest in
      let drained = λ (id : String) (task : BaseTask) (subject : Option String) (now : ℕ).
        Run-draining env isoformat u.1 u.0 id task subject now (Hears-Run rest') in
      (
        (λ id task subject now. (drained id task subject now).0),
        u.0,
        u.1,
        Hears-trans Moves tell before (told startup between),
        rest',
        (drained "" (record { code = 0; is_cancelled = false }) none 0).1,
      )
