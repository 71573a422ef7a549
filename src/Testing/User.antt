-- ===== src/Testing/User.antt =====
-- `get_current_user` of app/api/auth.py. `validate` is `AuthService.validate_token`. Roles are lists
-- that are read as sets; the answer's order is left out.
pub mod Vouched
pub mod Sessions
use zigbee_control.Prelude.{
  ℕ, String, Bool, true, false, not, ◌&&◌, Option, none, some, List, [], ◌∷◌, if◌then◌else◌, ◌==◌,
  nat_eq, truthy, truthy_opt,
}
use zigbee_control.Prelude.Results.{Result, ok, err, ◌>>=◌}
use zigbee_control.Prelude.Texts.{starts_with}
use zigbee_control.Settings.{Settings, is_testing}
use zigbee_control.Errors.{Exception, authentication_exception, authorization_exception}
use zigbee_control.Auth.Roles.{AuthService, expand_roles}
use zigbee_control.Auth.Tokens.{
  AuthenticationException, AuthContext, Request, extract_token_from_request,
}
use zigbee_control.Auth.Access.{meets}
use zigbee_control.Auth.Access.Hook.{TestSession, test_context}
use zigbee_control.Oidc.Login.{raised}
use zigbee_control.Testing.{TestingService, get_session, consume_forced_auth_error}

-- The user of the answer, or the status of a forced error.
pub data UserAnswer : Type 0 where
  user_info : AuthContext → UserAnswer
  forced_error : (status : ℕ) → UserAnswer

abbrev pub is_empty : List String → Bool
is_empty [] = true
is_empty (role ∷ roles) = false

abbrev pub no_recognized_role : Exception
no_recognized_role = authorization_exception "No recognized role -- access denied"

-- The user is answered, if one of the roles is in the hierarchy or there is no hierarchy.
unfoldable pub recognized : AuthService → AuthContext → Result Exception UserAnswer
recognized service context =
    if not (is_empty service.hierarchy_roles) && not (meets context.roles service.hierarchy_roles)
    then err no_recognized_role
    else ok (user_info context)

abbrev pub local_user : AuthService → AuthContext
local_user service = record {
  subject = "local-user";
  email = some "admin@local";
  name = some "Local Admin";
  roles = expand_roles service ("admin" ∷ []);
}

module _ (validate : String → Result AuthenticationException AuthContext)
    (service : AuthService) where
  abbrev pub validated_token : Option String → Result Exception AuthContext
  validated_token none = err (authentication_exception "No valid token provided")
  validated_token (some token) =
      if truthy token
      then raised (validate token)
      else err (authentication_exception "No valid token provided")

  abbrev pub known_context : Option AuthContext → Request → Result Exception AuthContext
  known_context (some context) request = ok context
  known_context none request = validated_token (extract_token_from_request request)

  -- The part that follows the testing mode.
  unfoldable pub oidc_user : Settings → Option AuthContext → Request → Result Exception UserAnswer
  unfolding recognized
  oidc_user config stored request =
      if not config.oidc_enabled
      then ok (user_info (local_user service))
      else (known_context stored request >>= recognized service)

  abbrev pub session_or :
      Option TestSession → Result Exception UserAnswer → Result Exception UserAnswer
  session_or none otherwise = otherwise
  session_or (some session) otherwise = recognized service (test_context service session)

  abbrev pub test_user :
      TestingService
      → (cookie : Option String) → Result Exception UserAnswer
      → Result Exception UserAnswer
  test_user t none otherwise = otherwise
  test_user t (some token) otherwise =
      if truthy token && starts_with "test-session-" token
      then session_or (get_session t token) otherwise
      else otherwise

  abbrev pub unforced :
      Option ℕ
      → TestingService
      → (cookie : Option String) → Result Exception UserAnswer
      → Result Exception UserAnswer
  unforced none t cookie otherwise = test_user t cookie otherwise
  unforced (some status) t cookie otherwise =
      if status == 0 then test_user t cookie otherwise else ok (forced_error status)

  -- `stored` is the context of the request, where the hook has set one.
  unfoldable pub get_current_user :
      Settings
      → (stored : Option AuthContext) → Request
      → TestingService
      → Result Exception UserAnswer × TestingService
  unfolding consume_forced_auth_error
  get_current_user config stored request t =
      if is_testing config
      then (let (forced, after) = consume_forced_auth_error t in
          (unforced forced after request.access_cookie (oidc_user config stored request), after))
      else (oidc_user config stored request, t)
