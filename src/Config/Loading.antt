-- ===== src/Config/Loading.antt =====
-- app/utils/config_loader.py, `AppSettings` of app/app_config.py, the provider of the configuration
-- service in app/services/container.py and the endpoint of app/api/config.py. The file system, the
-- YAML reader and Pydantic's reading of the values are parameters; a YAML value is a JSON value here.
pub mod Valid
use Prim.Native.String.{◌++◌ as append}
use zigbee_control.Prelude.{
  ◌≡◌, refl, sym, ap, ◌∙◌, ℕ, ◌<◌, String, Bool, true, false, not, ◌&&◌, Option, none, some, List,
  [], ◌∷◌, if◌then◌else◌, ◌==◌, string_eq, truthy, arith, length,
}
use zigbee_control.Prelude.Results.{Result, ok, err, ◌>>=◌, Result-cases}
use zigbee_control.Json.{
  Json, null, bool, int, text, array, object, Fields, field, end, truthy_json,
}
use zigbee_control.Prelude.Int.{ℤ, pos}
use zigbee_control.Config.{
  TabConfig, Invalid, ConfigService, TabResponse, validate_tabs, require_tabs, validate_all, create,
  to_response, tab_count,
}
use zigbee_control.Config.Laws.{validate_tabs_twice}

-- `Path(path)` as the loader finds it; `undecodable` is a UnicodeDecodeError.
pub data TabsFile : Type 0 where
  missing not_a_file undecodable : TabsFile
  read_failed : (strerror : String) → TabsFile
  content : (raw : String) → TabsFile

-- What `yaml.safe_load` ends in: a value, or an error with its text and its `problem_mark`.
pub data YamlOutcome : Type 0 where
  loaded : Json → YamlOutcome
  yaml_error : (message : String) → (problem_mark : Option String) → YamlOutcome

pub data LoadError : Type 0 where
  config_load_failed : (detail : String) → LoadError
  unicode_decode_error : LoadError

-- `ConfigLoadFailed.__init__`
unfoldable pub load_failed : (message : String) → (path : Option String) → LoadError
load_failed message none = config_load_failed message
load_failed message (some path) =
    config_load_failed (append message (append " (path=" (append path ")")))

abbrev pub yaml_detail : (message : String) → (problem_mark : Option String) → String
yaml_detail message none = append "malformed YAML: " message
yaml_detail message (some mark) = append "malformed YAML at " mark

-- `payload or {}`
abbrev pub or_empty : Json → Json
or_empty payload = if truthy_json payload then payload else object end

-- The mapping that is validated; `none` for a root of another kind.
abbrev pub root_of : Json → Option Fields
root_of (array items) = some (field "tabs" (array items) end)
root_of (object fields) = some fields
root_of null = none
root_of (bool b) = none
root_of (int n) = none
root_of (text s) = none

-- `typed` reads the tabs out of the mapping, and fails with a text where a value has another type;
-- `shown` is the text of a failed validation.
module _ (safe_load : String → YamlOutcome) (typed : Fields → Result String (List TabConfig))
    (shown : Invalid → String) where
  abbrev pub invalid_text : {A : Type 0} → Result Invalid A → Result String A
  invalid_text (ok a) = ok a
  invalid_text (err e) = err (shown e)

  -- `TabsConfig.model_validate`
  unfoldable pub model_validate : Fields → Result String (List TabConfig)
  unfolding validate_tabs
  model_validate fields = do raw ← typed fields; invalid_text (validate_tabs raw)

  module _ (path : String) where
    abbrev pub wrap_validation : Result String (List TabConfig) → Result LoadError (List TabConfig)
    wrap_validation (ok tabs) = ok tabs
    wrap_validation (err e) =
        err (load_failed (append "configuration validation failed: " e) (some path))

    abbrev pub validate_root : Option Fields → Result LoadError (List TabConfig)
    validate_root none = err (load_failed "YAML root must be a mapping or list of tabs" (some path))
    validate_root (some fields) = wrap_validation (model_validate fields)

    abbrev pub parse_yaml : YamlOutcome → Result LoadError (List TabConfig)
    parse_yaml (yaml_error message mark) = err (load_failed (yaml_detail message mark) (some path))
    parse_yaml (loaded payload) = validate_root (root_of (or_empty payload))

    unfoldable pub load_tabs_config : TabsFile → Result LoadError (List TabConfig)
    unfolding model_validate load_failed truthy_json
    load_tabs_config missing = err (load_failed "configuration file not found" (some path))
    load_tabs_config not_a_file = err (load_failed "configuration path is not a file" (some path))
    load_tabs_config undecodable = err unicode_decode_error
    load_tabs_config (read_failed strerror) =
        err (load_failed (append "failed to read configuration: " strerror) (some path))
    load_tabs_config (content raw) = parse_yaml (safe_load raw)

-- `AppEnvironment` and `AppSettings`.
pub record AppEnvironment : Type 0 where
  pub app_tabs_config : String
  pub app_k8s_restart_timeout : ℤ

abbrev pub default_app_environment : AppEnvironment
default_app_environment = record { app_tabs_config = ""; app_k8s_restart_timeout = pos 180 }

pub record AppSettings : Type 0 where
  pub tabs_config_path : String
  pub k8s_restart_timeout : ℤ

-- `project_root` is the path of the repository.
unfoldable pub load_app_settings :
    (project_root : String) → AppEnvironment → (flask_env : String) → AppSettings
load_app_settings project_root env flask_env = record {
  tabs_config_path =
      if not (truthy env.app_tabs_config) && flask_env == "testing"
      then append project_root "/test/tabs.yaml"
      else env.app_tabs_config;
  k8s_restart_timeout = env.app_k8s_restart_timeout;
}

-- `value_error` is the ValueError of `ConfigService` without tabs.
pub data ServiceError : Type 0 where
  load_error : LoadError → ServiceError
  value_error : ServiceError

abbrev pub from_loader : Result LoadError (List TabConfig) → Result ServiceError (List TabConfig)
from_loader (ok tabs) = ok tabs
from_loader (err e) = err (load_error e)

abbrev pub created : Option ConfigService → Result ServiceError ConfigService
created none = err value_error
created (some service) = ok service

module _ (safe_load : String → YamlOutcome) (typed : Fields → Result String (List TabConfig))
    (shown : Invalid → String) (files : String → TabsFile) where
  -- `_create_config_service`
  unfoldable pub create_config_service : AppSettings → Result ServiceError ConfigService
  unfolding load_tabs_config create
  create_config_service settings = do
    tabs ← from_loader (
        load_tabs_config safe_load typed shown settings.tabs_config_path
          (files settings.tabs_config_path))
    created (create tabs)

-- `get_config`
unfoldable pub get_config : ConfigService → List TabResponse
unfolding to_response
get_config service = to_response service
