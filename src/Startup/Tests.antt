-- ===== src/Startup/Tests.antt =====
-- The start with the default environment.
use zigbee_control.Prelude.{◌≡◌, refl, ◌↔◌, ◌⊎◌, ℕ, String, true, false, none, [], ◌∷◌}
use zigbee_control.Prelude.Results.{Result, ok, err}
use zigbee_control.Json.{Fields}
use zigbee_control.Settings.{Settings, load, default_environment, validate_production_config}
use zigbee_control.Settings.Loading.{IsStartable}
use zigbee_control.Health.{Health, check_readyz}
use zigbee_control.Config.{ConfigService, TabConfig}
use zigbee_control.Config.Loading.{ServiceError}
use zigbee_control.Auth.Roles.{AuthService}
use zigbee_control.Auth.RoleMap.{RoleMap}
use zigbee_control.Startup.{
  Numbers, App, answered, check_sse_gateway_readiness, constructed, after_services,
  start_background_services, create_app, launch, werkzeug, waitress,
}
use zigbee_control.Startup.Readiness.{HasKnownRoles, create_app_readyz}
use zigbee_control.Startup.Shutdown.{created_app_shuts_down}
use zigbee_control.Lifecycle.{
  WaitAnswer, ready, shut_down, fire_startup, init_coordinator, raise_lifecycle_event, startup,
  prepare_shutdown, shutdown, after_shutdown,
}
use zigbee_control.Lifecycle.Hearing.{Hears, whole_life, quiet, moves, told}
use zigbee_control.Sse.{Env, init, status}
use zigbee_control.Tasks.{TaskService, BaseTask}
use zigbee_control.Tasks
use zigbee_control.Tasks.Draining.{here, checks, submits}
use zigbee_control.Tasks.Closing.{tell, Drains}
use zigbee_control.FrontendVersion.{FrontendVersionService, store_pending, handle_lifecycle_event}
use zigbee_control.FrontendVersion.Closing.{QueueCall, payload_of, Serving, admits, stores, Forgets}
use zigbee_control.FrontendVersion.Closing

abbrev numbers : Numbers
numbers = record {
  log_capture = 1;
  temp_files = 2;
  task_events = 3;
  task_waiter = 4;
  frontend_connect = 5;
  frontend_events = 6;
  tab_connect = 7;
  sse_gateway = 8;
}

abbrev settings : Settings
settings = load default_environment

abbrev lights : TabConfig
lights = record {
  text = "Lights";
  icon_url = "/icon.svg";
  iframe_url = "http://lights";
  tab_color = none;
  k8s = none;
}

abbrev one_tab : ConfigService
one_tab = record { tabs = lights ∷ [] }

abbrev config_service : Result ServiceError ConfigService
config_service = ok one_tab

abbrev no_auth : Result String AuthService
no_auth = err "OIDC is not configured"

abbrev annotate : AuthService → RoleMap
annotate service = []

abbrev app : App
app =
    after_services numbers 24
      (start_background_services numbers 24 (constructed numbers 24 settings one_tab none))

abbrev check : ℕ → Result String Fields
check number = ok (check_sse_gateway_readiness (answered 200))

create_app_readyz_example :
    IsStartable settings
    × ((settings.oidc_enabled ≡ false) ⊎ HasKnownRoles [] no_auth)
    × (((h : Health) × (check_readyz check app.lifecycle app.health ≡ ok h) × (h.status_code ≡ 200))
        ↔ (answered 200 ≡ answered 200))
unfolding create_app validate_production_config load
create_app_readyz_example =
    create_app_readyz numbers 24 settings config_service no_auth [] annotate false app check
      (answered 200) refl refl

abbrev answering : Env
answering = record { dumps = λ j. "{}"; gateway = λ h p. status 200; invoke = λ k r m. (true, m) }

abbrev isoformat : ℕ → String
isoformat now = "2025-01-01T00:00:00"

abbrev fresh : TaskService
fresh = record {
  cleanup_interval = 600;
  tasks = [];
  task_instances = [];
  submitted = [];
  shutting_down = false;
  stop_cleanup = false;
  tasks_complete = false;
  active_at_shutdown = 0;
  sse = init;
}

abbrev job : BaseTask
job = record { code = 1; is_cancelled = false }

-- One task is started between the start and the shutdown.
abbrev stopped : ℕ × TaskService
stopped =
    let at = tell answering isoformat in
    at after_shutdown
      (at shutdown (at prepare_shutdown (0, Tasks.submit "a" job none 5 (at startup (0, fresh)).1)))

abbrev versions : FrontendVersionService
versions = record { pending_version = []; is_shutting_down = false; sse = init }

abbrev announcement : QueueCall
announcement = record { request_id = "r"; version = "1.2"; changelog = none }

-- A call passes the test between the start and the shutdown, and stores its version after SHUTDOWN.
abbrev closed : Serving
closed =
    let at = Closing.tell in
    at after_shutdown (
      [],
      store_pending "r" (payload_of announcement)
          (at shutdown (at prepare_shutdown (announcement ∷ [], versions))).1,
    )

abbrev waiter : ℕ → ℕ → WaitAnswer × ℕ
waiter handler remaining = (ready, 0)

announced : Hears Closing.Moves Closing.tell ([], versions) whole_life closed
unfolding handle_lifecycle_event
announced = told startup (
    moves (admits announcement refl) (
      told prepare_shutdown
        (told shutdown (moves (stores [] announcement [] refl) (told after_shutdown quiet)))))

created_app_shuts_down_example :
    Drains answering isoformat (0, fresh) stopped × Forgets answering ([], versions) closed
unfolding create_app validate_production_config load Tasks.submit Tasks.on_lifecycle_event shut_down
    fire_startup start_background_services init_coordinator raise_lifecycle_event
created_app_shuts_down_example =
    created_app_shuts_down numbers 24 waiter settings config_service no_auth [] annotate app
      answering isoformat (record { not_log = refl; once = refl })
      (record { not_log = refl; once = refl }) refl
      (told startup (
        moves {t = (0, Tasks.submit "a" job none 5 (tell answering isoformat startup (0, fresh)).1)}
          (submits "a" job none 5 (checks here refl))
          (told prepare_shutdown (told shutdown (told after_shutdown quiet)))))
      announced

reloader_parent :
    launch "development" none
    ≡ record { skip_background_services = true; initializes_lifecycle = false; server = werkzeug }
unfolding launch
reloader_parent = refl

in_production :
    launch "production" none
    ≡ record { skip_background_services = false; initializes_lifecycle = true; server = waitress }
unfolding launch
in_production = refl
