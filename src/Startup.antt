-- ===== src/Startup.antt =====
-- The construction of the application: `create_app` of app/__init__.py with the hooks of app/startup.py
-- and the background services of app/services/container.py, and the choices of run.py. Callbacks are
-- known by numbers, which `Numbers` gives. A service that the container makes on demand is made here
-- where it is first asked for.
pub mod Readiness
pub mod Shutdown
mod Tests
use zigbee_control.Prelude.{
  ℕ, ◌*◌, String, Bool, true, false, not, ◌&&◌, ◌||◌, Option, none, some, List, [], ◌∷◌,
  if◌then◌else◌, ◌==◌, string_eq, nat_eq,
}
use zigbee_control.Prelude.Int.{pos, pos_part}
use zigbee_control.Prelude.Results.{Result, ok, err, ◌>>=◌, ◌>>◌}
use zigbee_control.Json.{Json, Fields, bool, int, text, field, end}
use zigbee_control.Dict.{Dict}
use zigbee_control.Settings.{Settings, is_testing, validate_production_config}
use zigbee_control.Lifecycle.{
  LifecycleCoordinator, init_coordinator, register_lifecycle_notification, register_shutdown_waiter,
  fire_startup,
}
use zigbee_control.Health.{HealthService, register_readyz}
use zigbee_control.Sse.{Manager, init}
use zigbee_control.Config.{ConfigService, tab_count}
use zigbee_control.Config.Loading.{ServiceError}
use zigbee_control.TabStatus.{TabStatus}
use zigbee_control.TabStatus
use zigbee_control.FrontendVersion.{FrontendVersionService}
use zigbee_control.FrontendVersion
use zigbee_control.TempFiles.{TempFileManager, start_cleanup_thread}
use zigbee_control.TempFiles
use zigbee_control.Auth.Roles.{AuthService, ViewFunc, validate_allow_roles_at_startup}
use zigbee_control.Auth.RoleMap.{RoleMap}

pub record Numbers : Type 0 where
  pub log_capture : ℕ
  pub temp_files : ℕ
  pub task_events : ℕ
  pub task_waiter : ℕ
  pub frontend_connect : ℕ
  pub frontend_events : ℕ
  pub tab_connect : ℕ
  pub sse_gateway : ℕ

-- The parts of the container that exist after the start; of the task service, whether its clean-up
-- thread was started. The connection manager stands in `tab_status`.
pub record App : Type 0 where
  pub settings : Settings
  pub lifecycle : LifecycleCoordinator
  pub health : HealthService
  pub tab_status : TabStatus
  pub role_map : Option RoleMap
  pub temp_files : Option TempFileManager
  pub task_cleanup : Bool
  pub frontend : Option FrontendVersionService

-- What the request to the gateway ends in.
pub data GatewayAnswer : Type 0 where
  answered : (status_code : ℕ) → GatewayAnswer
  unreachable : (message : String) → GatewayAnswer

-- `_check_sse_gateway_readiness`
unfoldable pub check_sse_gateway_readiness : GatewayAnswer → Fields
check_sse_gateway_readiness (answered status_code) =
    if status_code == 200
    then field "reachable" (bool true) (field "ok" (bool true) end)
    else field "reachable" (bool true)
        (field "status_code" (int (pos status_code)) (field "ok" (bool false) end))
check_sse_gateway_readiness (unreachable message) =
    field "reachable" (bool false) (field "error" (text message) (field "ok" (bool false) end))

pub data StartError : Type 0 where
  configuration_error : String → StartError
  tabs_error : ServiceError → StartError
  auth_error : String → StartError
  unknown_role : (endpoint : String) → StartError

abbrev pub or_configuration_error : Result String (Unit {0}) → Result StartError (Unit {0})
or_configuration_error (ok done) = ok tt
or_configuration_error (err message) = err (configuration_error message)

abbrev pub or_tabs_error : Result ServiceError ConfigService → Result StartError ConfigService
or_tabs_error (ok service) = ok service
or_tabs_error (err e) = err (tabs_error e)

abbrev pub or_unknown_role : Option String → Result StartError (Unit {0})
or_unknown_role none = ok tt
or_unknown_role (some endpoint) = err (unknown_role endpoint)

abbrev pub check_views :
    Dict String ViewFunc → Result String AuthService → Result StartError (Unit {0})
check_views views (err message) = err (auth_error message)
check_views views (ok service) = or_unknown_role (validate_allow_roles_at_startup views service)

-- The annotation only logs an error.
abbrev pub annotated : (AuthService → RoleMap) → Result String AuthService → Option RoleMap
annotated annotate (err message) = none
annotated annotate (ok service) = some (annotate service)

module _ (numbers : Numbers) (cleanup_age : ℕ) where
  -- The registered starters, in the order of the container.
  abbrev pub start_temp_files : App → App
  start_temp_files app = record app {
    lifecycle = register_lifecycle_notification numbers.temp_files app.lifecycle;
    temp_files = some (start_cleanup_thread (TempFiles.create cleanup_age));
  }

  abbrev pub start_tasks : App → App
  start_tasks app = record app {
    lifecycle =
        register_shutdown_waiter "TaskService" numbers.task_waiter
          (register_lifecycle_notification numbers.task_events app.lifecycle);
    task_cleanup = true;
  }

  abbrev pub start_frontend : App → App
  start_frontend app =
      let (service, lifecycle) =
        FrontendVersion.create numbers.frontend_connect numbers.frontend_events app.tab_status.sse
          app.lifecycle in
      record app {
        lifecycle = lifecycle;
        tab_status = record app.tab_status { sse = service.sse };
        frontend = some service;
      }

  unfoldable pub start_background_services : App → App
  unfolding register_lifecycle_notification register_shutdown_waiter start_cleanup_thread
      TempFiles.create FrontendVersion.create
  start_background_services app = start_frontend (start_tasks (start_temp_files app))

  abbrev pub after_services : App → App
  after_services app = record app { lifecycle = fire_startup app.lifecycle }

  abbrev pub first_lifecycle : Settings → LifecycleCoordinator
  first_lifecycle settings =
      let c = init_coordinator (pos_part settings.graceful_shutdown_timeout * 1000) in
      if is_testing settings then register_lifecycle_notification numbers.log_capture c else c

  abbrev pub first_health : Settings → HealthService
  first_health settings =
      register_readyz "sse_gateway" numbers.sse_gateway
        (record { settings = settings; healthz_checks = []; readyz_checks = [] })

  abbrev pub constructed : Settings → ConfigService → Option RoleMap → App
  constructed settings config role_map = record {
    settings = settings;
    lifecycle = first_lifecycle settings;
    health = first_health settings;
    tab_status = TabStatus.start numbers.tab_connect (tab_count config) init;
    role_map = role_map;
    temp_files = none;
    task_cleanup = false;
    frontend = none;
  }

  abbrev pub roles_checked :
      Settings → Dict String ViewFunc → Result String AuthService → Result StartError (Unit {0})
  roles_checked settings views auth_service =
      if settings.oidc_enabled then check_views views auth_service else ok tt

  abbrev pub finished : (skip_background_services : Bool) → App → App
  finished skip_background_services app =
      if skip_background_services then app else after_services (start_background_services app)

  -- `config_service` and `auth_service` are what the container makes of the settings.
  unfoldable pub create_app :
      Settings
      → (config_service : Result ServiceError ConfigService)
      → (auth_service : Result String AuthService) → Dict String ViewFunc
      → (annotate : AuthService → RoleMap) → (skip_background_services : Bool)
      → Result StartError App
  create_app settings config_service auth_service views annotate skip_background_services = do
    or_configuration_error (validate_production_config settings)
    config ← or_tabs_error config_service
    roles_checked settings views auth_service
    ok (
        finished skip_background_services
          (constructed settings config (annotated annotate auth_service)))

-- What `main` of run.py chooses, by the environment and the variable WERKZEUG_RUN_MAIN.
pub data Server : Type 0 where
  werkzeug waitress : Server

pub record Launch : Type 0 where
  pub skip_background_services : Bool
  pub initializes_lifecycle : Bool
  pub server : Server

abbrev pub is_child : Option String → Bool
is_child none = false
is_child (some value) = value == "true"

unfoldable pub launch : (flask_env : String) → (werkzeug_run_main : Option String) → Launch
launch flask_env werkzeug_run_main =
    let debug_mode = flask_env == "development" || flask_env == "testing" in
    record {
      skip_background_services = debug_mode && not (is_child werkzeug_run_main);
      initializes_lifecycle = not debug_mode || is_child werkzeug_run_main;
      server = if debug_mode then werkzeug else waitress;
    }
