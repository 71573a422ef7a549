-- ===== src/Auth/Access/Hook.antt =====
-- `before_request_authentication` of app/api/oidc_hooks.py, with the test sessions of
-- app/services/testing_service.py. `get_session` is `TestingService.get_session`.
use zigbee_control.Prelude.{
  String, Bool, false, ◌&&◌, Option, none, some, List, if◌then◌else◌, string_eq, truthy_opt,
}
use zigbee_control.Prelude.Results.{Result, ok, err}
use zigbee_control.Auth.Roles.{AuthService, ViewFunc, expand_roles}
use zigbee_control.Auth.Tokens.{AuthenticationException, AuthContext, Request}
use zigbee_control.Auth.Access.{
  AuthorizationException, PendingTokenRefresh, G, AccessError, checked, authenticate_request,
  unauthenticated, forbidden,
}

-- The hook's answer: `None`, or an error with its status.
pub data Answer : Type 0 where
  pass : Answer
  error_401 : AuthenticationException → Answer
  error_403 : AuthorizationException → Answer

abbrev pub answer : Result AccessError (Unit {0}) → Answer
answer (ok _) = pass
answer (err (unauthenticated e)) = error_401 e
answer (err (forbidden e)) = error_403 e

abbrev pub answered : Result AccessError (Unit {0}) × G → Answer × G
answered (r, g) = (answer r, g)

pub record TestSession : Type 0 where
  pub subject : String
  pub name : Option String
  pub email : Option String
  pub roles : List String

pub record Settings : Type 0 where
  pub is_testing : Bool
  pub oidc_enabled : Bool

abbrev pub test_context : AuthService → TestSession → AuthContext
test_context service session = record {
  subject = session.subject;
  email = session.email;
  name = session.name;
  roles = expand_roles service session.roles;
}

-- `testing_service.get_session(token)` for the token of the cookie.
abbrev pub test_session :
    Settings → (String → Option TestSession) → Option String → Option TestSession
test_session config get_session none = none
test_session config get_session (some token) =
    if config.is_testing && truthy_opt (some token) then get_session token else none

abbrev pub is_public_view : Option ViewFunc → Bool
is_public_view none = false
is_public_view (some func) = func.is_public

module _ (validate : String → Result AuthenticationException AuthContext) (service : AuthService)
    (config : Settings) (get_session : String → Option TestSession)
    (refresh : Option (String → Result AuthenticationException PendingTokenRefresh)) where
  abbrev pub without_session : Request → Option ViewFunc → G → Answer × G
  without_session request func g =
      if config.oidc_enabled
      then answered (authenticate_request validate service refresh request func g)
      else (pass, g)

  abbrev pub by_session : Option TestSession → Request → Option ViewFunc → G → Answer × G
  by_session none request func g = without_session request func g
  by_session (some session) request func g =
      answered (checked validate service (test_context service session) request func g)

  unfoldable pub before_request_authentication : Request → Option ViewFunc → G → Answer × G
  before_request_authentication request func g =
      if is_public_view func
      then (pass, g)
      else by_session (test_session config get_session request.access_cookie) request func g
