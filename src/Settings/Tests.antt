-- ===== src/Settings/Tests.antt =====
-- Settings at concrete environments.
use zigbee_control.Prelude.{◌≡◌, refl, true, some, string_eq}
use zigbee_control.Settings.{Environment, load, default_environment}

abbrev live : Environment
live = record default_environment {
  flask_env = "production";
  secret_key = "k";
  baseurl = "https://home.example//";
  oidc_enabled = true;
  oidc_issuer_url = some "https://id.example";
  oidc_client_id = some "zigbee";
  oidc_client_secret = some "c";
}

live_baseurl : (load live).baseurl ≡ "https://home.example"
unfolding load
live_baseurl = refl
