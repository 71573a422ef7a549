-- ===== src/Startup/Shutdown.antt =====
-- What the shutdown of an application that was created does to its services: each hears the events
-- that the coordinator raises, in their order, while requests and worker threads go on in between.
use zigbee_control.Prelude.{
  ◌≡◌, refl, subst, ℕ, String, Option, false, List, [], ◌∷◌, arith, Bool-cases, inl, inr, ◌==◌,
  nat_eq, count,
}
use zigbee_control.Prelude.Results.{Result, ok}
use zigbee_control.Dict.{Dict}
use zigbee_control.Settings.{Settings, is_testing}
use zigbee_control.Lifecycle.{
  LifecycleEvent, LifecycleCoordinator, fire_startup, raise_lifecycle_event,
  register_lifecycle_notification, register_shutdown_waiter, init_coordinator, WaitAnswer,
  shut_down,
}
use zigbee_control.Lifecycle.Hearing.{Hears, whole_life}
use zigbee_control.Lifecycle.Shutdown.{heard, shut_down_order, fire_startup_once}
use zigbee_control.Sse.{Env}
use zigbee_control.Tasks.{TaskService}
use zigbee_control.Tasks.Closing.{Moves, tell, Drains, whole_life-Drains}
use zigbee_control.FrontendVersion.{create}
use zigbee_control.FrontendVersion.Closing.{Serving, Forgets, whole_life-Forgets}
use zigbee_control.FrontendVersion.Closing as Versions
use zigbee_control.Config.{ConfigService}
use zigbee_control.Config.Loading.{ServiceError}
use zigbee_control.Auth.Roles.{AuthService, ViewFunc}
use zigbee_control.Auth.RoleMap.{RoleMap}
use zigbee_control.Startup.Readiness.{create_app-WasCreated}
use zigbee_control.Startup.{
  Numbers, App, create_app, annotated, constructed, start_background_services,
}

-- Exactly one of the three services that are always started has this callback, and the log capture,
-- which is there in the testing environment only, has another one.
pub record IsOwn (numbers : Numbers) (callback : ℕ) : Type 0 where
  pub not_log : (numbers.log_capture == callback) ≡ false
  pub once :
      count callback (numbers.temp_files ∷ numbers.task_events ∷ numbers.frontend_events ∷ []) ≡ 1

module _ (numbers : Numbers) (cleanup_age : ℕ) (callback : ℕ) where
  -- The coordinator before STARTUP is raised.
  record IsSetUp (c : LifecycleCoordinator) : Type 0 where
    waiting : c.started ≡ false
    running : c.shutting_down ≡ false
    silent : c.raised ≡ []
    single : count callback c.lifecycle_notifications ≡ 1

  constructed-IsSetUp :
      (settings : Settings) (config : ConfigService) (role_map : Option RoleMap)
      → IsOwn numbers callback
      → IsSetUp
          (start_background_services numbers cleanup_age
            (constructed numbers cleanup_age settings config role_map)).lifecycle
  unfolding start_background_services register_lifecycle_notification register_shutdown_waiter
      create init_coordinator
  constructed-IsSetUp settings config role_map own = elim (Bool-cases (is_testing settings)) [
    | inl testing ↦
        rw testing (record {
          waiting = refl;
          running = refl;
          silent = refl;
          single = rw own.not_log own.once;
        })
    | inr other ↦
        rw other (record { waiting = refl; running = refl; silent = refl; single = own.once })
  ]

  module _ (waiter : ℕ → ℕ → WaitAnswer × ℕ) where
    IsSetUp-heard :
        (c : LifecycleCoordinator)
        → IsSetUp c
        → heard callback (shut_down waiter (fire_startup c)).raised ≡ whole_life
    unfolding fire_startup raise_lifecycle_event
    IsSetUp-heard c v =
        let started = (fire_startup_once c callback v.waiting v.single).1 in
        let stopped =
          (shut_down_order waiter (fire_startup c) callback (ground (arith, v.running, v.waiting))
            (ground (arith, v.single, v.waiting))).0 in
        rw (stopped, started, v.silent) refl

    -- The start and the shutdown tell each service the four events, in order and each once.
    created_heard :
        (settings : Settings) (config_service : Result ServiceError ConfigService)
        (auth_service : Result String AuthService) (views : Dict String ViewFunc)
        (annotate : AuthService → RoleMap) (app : App)
        → IsOwn numbers callback
        → create_app numbers cleanup_age settings config_service auth_service views annotate false
          ≡ ok app
        → heard callback (shut_down waiter app.lifecycle).raised ≡ whole_life
    created_heard settings config_service auth_service views annotate app own made =
        let (_, _, config, same) =
          create_app-WasCreated numbers cleanup_age settings config_service auth_service views
            annotate false app made in
        subst (λ a. heard callback (shut_down waiter a.lifecycle).raised ≡ whole_life) same
          (IsSetUp-heard _
            (constructed-IsSetUp settings config (annotated annotate auth_service) own))

module _ (numbers : Numbers) (cleanup_age : ℕ) (waiter : ℕ → ℕ → WaitAnswer × ℕ)
    (settings : Settings) (config_service : Result ServiceError ConfigService)
    (auth_service : Result String AuthService) (views : Dict String ViewFunc)
    (annotate : AuthService → RoleMap) (app : App) (env : Env) (isoformat : ℕ → String) where
  -- What the coordinator told a callback when the application was started and has been shut down.
  abbrev told_to : ℕ → List LifecycleEvent
  told_to callback = heard callback (shut_down waiter app.lifecycle).raised

  -- A created application with its background services is shut down, and its task service and its
  -- frontend version service hear what the coordinator raised, with any of their own sections in
  -- between. Then no task can be started, and since PREPARE_SHUTDOWN was told the executor has been
  -- given at most one task for each start that was under way. No version can be queued, and a client
  -- that connects is sent what the version file says, or, under the request id of a queueing call that
  -- was under way when PREPARE_SHUTDOWN was told, the version of that call.
  pub created_app_shuts_down :
      {p q : ℕ × TaskService} {f g : Serving}
      → IsOwn numbers numbers.task_events
      → IsOwn numbers numbers.frontend_events
      → create_app numbers cleanup_age settings config_service auth_service views annotate false
        ≡ ok app
      → Hears (Moves env isoformat) (tell env isoformat) p (told_to numbers.task_events) q
      → Hears Versions.Moves Versions.tell f (told_to numbers.frontend_events) g
      → Drains env isoformat p q × Forgets env f g
  created_app_shuts_down {p} {q} {f} {g} own own' made tasks frontend =
      let all = λ (callback : ℕ) (own : IsOwn numbers callback).
        created_heard numbers cleanup_age callback waiter settings config_service auth_service views
          annotate app own made in
      (
        whole_life-Drains env isoformat (
            subst (λ events. Hears (Moves env isoformat) (tell env isoformat) p events q)
              (all numbers.task_events own) tasks),
        whole_life-Forgets env (
            subst (λ events. Hears Versions.Moves Versions.tell f events g)
              (all numbers.frontend_events own') frontend),
      )
