-- ===== src/Testing/Tests.antt =====
-- Test sessions and the endpoint `/api/auth/self` at concrete requests.
use zigbee_control.Prelude.{
  ◌≡◌, refl, ◌⊎◌, String, true, false, Option, none, some, List, [], ◌∷◌, string_eq,
}
use zigbee_control.Prelude.Results.{Result, ok}
use zigbee_control.Settings.{Settings, load, default_environment}
use zigbee_control.Auth.Roles.{AuthService, tiers}
use zigbee_control.Auth.Tokens.{AuthenticationException, AuthContext, Request}
use zigbee_control.Auth.Access.{meets}
use zigbee_control.Testing.{no_sessions}
use zigbee_control.Testing.User.{is_empty, oidc_user, get_current_user}
use zigbee_control.Testing.User.Vouched.{IsKnown, get_current_user-IsKnown}

abbrev testing : Settings
testing = load (record default_environment { flask_env = "testing" })

abbrev live : Settings
live = load (record default_environment { oidc_enabled = true })

abbrev service : AuthService
service = tiers (some "reader") (some "editor") none []

abbrev alice : AuthContext
alice = record { subject = "alice"; email = none; name = none; roles = "reader" ∷ [] }

abbrev validate : String → Result AuthenticationException AuthContext
validate token = ok alice

abbrev request : Request
request = record {
  method = "GET";
  access_cookie = some "test-session-x";
  refresh_cookie = none;
  authorization = [];
}

get_current_user-IsKnown_example :
    IsKnown validate service none request alice
    × ((is_empty service.hierarchy_roles ≡ true)
        ⊎ (meets alice.roles service.hierarchy_roles ≡ true))
unfolding load get_current_user oidc_user zigbee_control.Auth.Tokens.extract_token_from_request
    tiers zigbee_control.Prelude.contains
get_current_user-IsKnown_example =
    get_current_user-IsKnown validate service live none request no_sessions alice refl refl refl
