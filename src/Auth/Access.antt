-- ===== src/Auth/Access.antt =====
-- `check_authorization` and `authenticate_request` of app/utils/auth.py. Parameters are `validate`,
-- which is `AuthService.validate_token`, and `refresh`, which is
-- `OidcClientService.refresh_access_token`.
pub mod Hook
pub mod Guard
pub mod Tiers
use zigbee_control.Prelude.{
  ℕ, String, Bool, true, false, not, ◌&&◌, ◌||◌, Option, none, some, List, [], ◌∷◌, if◌then◌else◌,
  any, contains, string_eq, truthy_opt,
}
use zigbee_control.Prelude.Int.{ℤ}
use zigbee_control.Prelude.Results.{Result, ok, err, ◌>>=◌}
use zigbee_control.Auth.Roles.{
  AuthService, ViewFunc, Required, open_to_all, one_role, any_of, resolve_required_role,
  expand_roles,
}
use zigbee_control.Auth.Tokens.{
  AuthenticationException, AuthContext, Request, extract_token_from_request, mentions,
}

-- The texts of the two exceptions; the second one names the roles in alphabetical order.
pub data AuthorizationException : Type 0 where
  no_recognized_role : AuthorizationException
  insufficient_permissions : (required_roles : List String) → AuthorizationException

-- `roles & others` is not empty.
abbrev pub meets : List String → List String → Bool
meets roles others = any (λ role. contains others role) roles

unfoldable pub check_roles :
    AuthContext
    → AuthService
    → (required_roles : List String) → Result AuthorizationException (Unit {0})
check_roles context service required_roles =
    if meets context.roles required_roles
    then ok tt
    else if not (meets context.roles service.configured_roles)
    then err no_recognized_role
    else err (insufficient_permissions required_roles)

abbrev pub check_required :
    AuthContext → AuthService → Required → Result AuthorizationException (Unit {0})
check_required context service open_to_all = ok tt
check_required context service (one_role role) = check_roles context service (role ∷ [])
check_required context service (any_of roles) = check_roles context service roles

unfoldable pub check_authorization :
    AuthContext
    → AuthService
    → (http_method : String) → Option ViewFunc
    → Result AuthorizationException (Unit {0})
check_authorization context service http_method func =
    check_required context service (resolve_required_role service http_method func)

pub record PendingTokenRefresh : Type 0 where
  pub access_token : String
  pub refresh_token : Option String
  pub access_token_expires_in : ℤ

-- What the hooks keep in `flask.g`.
pub record G : Type 0 where
  pub auth_context : Option AuthContext
  pub clear_auth_cookies : Bool
  pub pending_token_refresh : Option PendingTokenRefresh

abbrev pub fresh : G
fresh = record { auth_context = none; clear_auth_cookies = false; pending_token_refresh = none }

pub data AccessError : Type 0 where
  unauthenticated : AuthenticationException → AccessError
  forbidden : AuthorizationException → AccessError

abbrev pub or_forbidden : Result AuthorizationException (Unit {0}) → Result AccessError (Unit {0})
or_forbidden (ok _) = ok tt
or_forbidden (err e) = err (forbidden e)

-- What a token says, the exchange of a refresh token, and the service that does it, if there is one.
module _ (validate : String → Result AuthenticationException AuthContext)
    (service : AuthService) where
  abbrev pub checked :
      AuthContext → Request → Option ViewFunc → G → Result AccessError (Unit {0}) × G
  checked context request func g = (
    or_forbidden (check_authorization context service request.method func),
    record g { auth_context = some context },
  )

  -- After a refresh that returned tokens: the new token, the tokens to store, and the check.
  abbrev pub after_refresh :
      Result AuthenticationException AuthContext
      → PendingTokenRefresh
      → Request
      → Option ViewFunc
      → G
      → Result AccessError (Unit {0}) × G
  after_refresh (err e) tokens request func g = (err (unauthenticated e), g)
  after_refresh (ok context) tokens request func g =
      checked context request func (record g { pending_token_refresh = some tokens })

  abbrev pub refreshed :
      Result AuthenticationException PendingTokenRefresh
      → Request
      → Option ViewFunc
      → G
      → Result AccessError (Unit {0}) × G
  refreshed (err e) request func g = (
    err (unauthenticated "Session expired, please login again"),
    record g { clear_auth_cookies = true },
  )
  refreshed (ok tokens) request func g =
      after_refresh (validate tokens.access_token) tokens request func g

  abbrev pub no_refresh_token : (token_expired : Bool) → AuthenticationException
  no_refresh_token token_expired =
      if token_expired then "Token has expired" else "No valid token provided"

  -- The part of `authenticate_request` without a valid access token.
  abbrev pub try_refresh :
      Option (String → Result AuthenticationException PendingTokenRefresh)
      → (token_expired : Bool) → (refresh_cookie : Option String) → Request
      → Option ViewFunc
      → G
      → Result AccessError (Unit {0}) × G
  try_refresh refresh token_expired none request func g =
      (err (unauthenticated (no_refresh_token token_expired)), g)
  try_refresh none token_expired (some token) request func g =
      if truthy_opt (some token)
      then (err (unauthenticated "Session expired, please login again"), g)
      else (err (unauthenticated (no_refresh_token token_expired)), g)
  try_refresh (some refresh) token_expired (some token) request func g =
      if truthy_opt (some token)
      then refreshed (refresh token) request func g
      else (err (unauthenticated (no_refresh_token token_expired)), g)

  abbrev pub with_validated :
      Option (String → Result AuthenticationException PendingTokenRefresh)
      → Result AuthenticationException AuthContext
      → Request
      → Option ViewFunc
      → G
      → Result AccessError (Unit {0}) × G
  with_validated refresh (ok context) request func g = checked context request func g
  with_validated refresh (err message) request func g =
      if mentions "EXPIRED" message
      then try_refresh refresh true request.refresh_cookie request func g
      else (err (unauthenticated message), g)

  abbrev pub with_token :
      Option (String → Result AuthenticationException PendingTokenRefresh)
      → Option String
      → Request
      → Option ViewFunc
      → G
      → Result AccessError (Unit {0}) × G
  with_token refresh none request func g =
      try_refresh refresh false request.refresh_cookie request func g
  with_token refresh (some token) request func g =
      if truthy_opt (some token)
      then with_validated refresh (validate token) request func g
      else try_refresh refresh false request.refresh_cookie request func g

  unfoldable pub authenticate_request :
      Option (String → Result AuthenticationException PendingTokenRefresh)
      → Request
      → Option ViewFunc
      → G
      → Result AccessError (Unit {0}) × G
  authenticate_request refresh request func g =
      with_token refresh (extract_token_from_request request) request func g
