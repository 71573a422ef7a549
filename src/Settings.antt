-- ===== src/Settings.antt =====
-- app/config.py: the variables of the environment, the settings that `Settings.load` resolves from
-- them, and the check before the start. The variables are typed as Pydantic hands them over.
pub mod Loading
mod Tests
use Prim.Native.String.{String, ◌++◌ as append}
use zigbee_control.Prelude.{
  ℕ, Bool, true, false, not, ◌&&◌, Option, none, some, List, [], ◌∷◌, ◌++◌, if◌then◌else◌, ◌==◌,
  string_eq, truthy_opt,
}
use zigbee_control.Prelude.Int.{ℤ, pos}
use zigbee_control.Prelude.Results.{Result, ok, err}
use zigbee_control.Prelude.Texts.{starts_with, rstrip_char, or_text, join_with}

-- The names of the fields are those of the variables, in lower case.
pub record Environment : Type 0 where
  pub secret_key : String
  pub flask_env : String
  pub debug : Bool
  pub cors_origins : List String
  pub task_max_workers : ℤ
  pub task_timeout_seconds : ℤ
  pub task_cleanup_interval_seconds : ℤ
  pub metrics_update_interval : ℤ
  pub graceful_shutdown_timeout : ℤ
  pub drain_auth_key : String
  pub baseurl : String
  pub oidc_enabled : Bool
  pub oidc_issuer_url : Option String
  pub oidc_client_id : Option String
  pub oidc_client_secret : Option String
  pub oidc_scopes : String
  pub oidc_audience : Option String
  pub oidc_clock_skew_seconds : ℤ
  pub oidc_cookie_name : String
  pub oidc_cookie_secure : Option Bool
  pub oidc_cookie_samesite : String
  pub oidc_cookie_partitioned : Bool
  pub oidc_refresh_cookie_name : String
  pub frontend_version_url : String
  pub sse_heartbeat_interval : ℤ
  pub sse_gateway_url : String
  pub sse_callback_secret : String

abbrev pub default_secret_key : String
default_secret_key = "dev-secret-key-change-in-production"

-- The environment where no variable is set.
abbrev pub default_environment : Environment
default_environment = record {
  secret_key = default_secret_key;
  flask_env = "development";
  debug = true;
  cors_origins = "http://localhost:3200" ∷ [];
  task_max_workers = pos 4;
  task_timeout_seconds = pos 300;
  task_cleanup_interval_seconds = pos 600;
  metrics_update_interval = pos 60;
  graceful_shutdown_timeout = pos 600;
  drain_auth_key = "";
  baseurl = "http://localhost:3200";
  oidc_enabled = false;
  oidc_issuer_url = none;
  oidc_client_id = none;
  oidc_client_secret = none;
  oidc_scopes = "openid profile email";
  oidc_audience = none;
  oidc_clock_skew_seconds = pos 30;
  oidc_cookie_name = "access_token";
  oidc_cookie_secure = none;
  oidc_cookie_samesite = "Lax";
  oidc_cookie_partitioned = false;
  oidc_refresh_cookie_name = "refresh_token";
  frontend_version_url = "http://localhost:3200/version.json";
  sse_heartbeat_interval = pos 5;
  sse_gateway_url = "http://localhost:3202";
  sse_callback_secret = "";
}

pub record Settings : Type 0 where
  pub secret_key : String
  pub flask_env : String
  pub debug : Bool
  pub cors_origins : List String
  pub task_max_workers : ℤ
  pub task_timeout_seconds : ℤ
  pub task_cleanup_interval_seconds : ℤ
  pub metrics_update_interval : ℤ
  pub graceful_shutdown_timeout : ℤ
  pub drain_auth_key : String
  pub baseurl : String
  pub oidc_enabled : Bool
  pub oidc_issuer_url : Option String
  pub oidc_client_id : Option String
  pub oidc_client_secret : Option String
  pub oidc_scopes : String
  pub oidc_audience : Option String
  pub oidc_clock_skew_seconds : ℤ
  pub oidc_cookie_name : String
  pub oidc_cookie_secure : Bool
  pub oidc_cookie_samesite : String
  pub oidc_cookie_partitioned : Bool
  pub oidc_refresh_cookie_name : String
  pub frontend_version_url : String
  pub sse_heartbeat_interval : ℤ
  pub sse_gateway_url : String
  pub sse_callback_secret : String

-- `"/"`
abbrev pub slash : ℕ
slash = 47

abbrev pub heartbeat_interval : Environment → ℤ
heartbeat_interval env =
    if env.flask_env == "production" then pos 30 else env.sse_heartbeat_interval

abbrev pub cookie_secure : Option Bool → (baseurl : String) → Bool
cookie_secure none baseurl = starts_with "https://" baseurl
cookie_secure (some secure) baseurl = secure

unfoldable pub load : Environment → Settings
unfolding rstrip_char
load env = record {
  secret_key = env.secret_key;
  flask_env = env.flask_env;
  debug = env.debug;
  cors_origins = env.cors_origins;
  task_max_workers = env.task_max_workers;
  task_timeout_seconds = env.task_timeout_seconds;
  task_cleanup_interval_seconds = env.task_cleanup_interval_seconds;
  metrics_update_interval = env.metrics_update_interval;
  graceful_shutdown_timeout = env.graceful_shutdown_timeout;
  drain_auth_key = env.drain_auth_key;
  baseurl = rstrip_char slash env.baseurl;
  oidc_enabled = env.oidc_enabled;
  oidc_issuer_url = env.oidc_issuer_url;
  oidc_client_id = env.oidc_client_id;
  oidc_client_secret = env.oidc_client_secret;
  oidc_scopes = env.oidc_scopes;
  oidc_audience = or_text env.oidc_audience env.oidc_client_id;
  oidc_clock_skew_seconds = env.oidc_clock_skew_seconds;
  oidc_cookie_name = env.oidc_cookie_name;
  oidc_cookie_secure = cookie_secure env.oidc_cookie_secure env.baseurl;
  oidc_cookie_samesite = env.oidc_cookie_samesite;
  oidc_cookie_partitioned = env.oidc_cookie_partitioned;
  oidc_refresh_cookie_name = env.oidc_refresh_cookie_name;
  frontend_version_url = env.frontend_version_url;
  sse_heartbeat_interval = heartbeat_interval env;
  sse_gateway_url = env.sse_gateway_url;
  sse_callback_secret = env.sse_callback_secret;
}

abbrev pub is_testing : Settings → Bool
is_testing config = config.flask_env == "testing"

abbrev pub is_production : Settings → Bool
is_production config = config.flask_env == "production"

-- `errors.append(message)` under a test.
abbrev pub error_if : Bool → String → List String
error_if test message = if test then message ∷ [] else []

abbrev pub oidc_errors : Settings → List String
oidc_errors config =
    error_if (not (truthy_opt config.oidc_issuer_url))
      "OIDC_ISSUER_URL is required when OIDC_ENABLED=True"
    ++ error_if (not (truthy_opt config.oidc_client_id))
        "OIDC_CLIENT_ID is required when OIDC_ENABLED=True"
    ++ error_if (not (truthy_opt config.oidc_client_secret))
        "OIDC_CLIENT_SECRET is required when OIDC_ENABLED=True"

unfoldable pub config_errors : Settings → List String
config_errors config =
    error_if (is_production config && config.secret_key == default_secret_key)
      "SECRET_KEY must be set to a secure value in production (current value is the insecure default)"
    ++ (if config.oidc_enabled then oidc_errors config else [])

-- The error's text is that of the `ConfigurationError`.
unfoldable pub validate_production_config : Settings → Result String (Unit {0})
unfolding config_errors
validate_production_config config = elim (config_errors config) [
  | [] ↦ ok tt
  | e ∷ es ↦ err (append "Configuration validation failed:\n  - " (join_with "\n  - " (e ∷ es)))
]
