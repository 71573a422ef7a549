-- ===== src/Auth/Tests.antt =====
-- The theorems about access at concrete requests.
use zigbee_control.Prelude.{
  ℕ, inr, Option, ◌≡◌, refl, String, true, false, none, some, [], ◌∷◌, string_eq, contains, ◌==◌,
  if◌then◌else◌,
}
use zigbee_control.Prelude.Int.{pos}
use zigbee_control.Prelude.Results.{Result, ok, err}
use zigbee_control.Dict.{get, put}
use zigbee_control.Auth.Roles.{
  AuthService, tiers, init_roles, expand_roles, same_letters, by_method, resolve_required_role,
}
use zigbee_control.Auth.Roles.Hierarchy.{covers, expand_roles_exact}
use zigbee_control.Auth.Tokens.{
  AuthContext, Request, AuthenticationException, extract_token_from_request,
}
use zigbee_control.Auth.Access.{
  PendingTokenRefresh, unauthenticated, check_authorization, check_roles, fresh,
  authenticate_request,
}
use zigbee_control.Auth.Access.Hook.{Settings, before_request_authentication}
use zigbee_control.Auth.Cookies.{CookieSettings, set_cookie, after_request_set_cookies}
use zigbee_control.Auth.Cookies.Clearing.{refused_refresh_clears}
use zigbee_control.Auth.Access.Guard.{IsAdmitted, before_request-IsAdmitted}
use zigbee_control.Auth.Access.Tiers.{write_access_reads}

abbrev service : AuthService
unfolding tiers put
service = tiers (some "reader") (some "editor") (some "admin") ("pipeline" ∷ [])

abbrev editor : AuthContext
unfolding expand_roles get
editor = record {
  subject = "alice";
  email = none;
  name = none;
  roles = expand_roles service ("editor" ∷ []);
}

abbrev validate : String → Result AuthenticationException AuthContext
validate token = if token == "good" then ok editor else err "Token has expired"

abbrev request : Request
request = record {
  method = "POST";
  access_cookie = some "good";
  refresh_cookie = none;
  authorization = [];
}

abbrev live : Settings
live = record { is_testing = false; oidc_enabled = true }

expand_roles_exact_example : contains (expand_roles service ("admin" ∷ [])) "reader" ≡ true
unfolding covers init_roles service tiers
expand_roles_exact_example =
    expand_roles_exact (some "reader") (some "editor") (some "admin") ("pipeline" ∷ []) service
      ("admin" ∷ []) "reader" refl

write_access_reads_example : check_authorization editor service "GET" none ≡ ok tt
unfolding init_roles service tiers expand_roles editor same_letters check_authorization
    resolve_required_role by_method check_roles contains
write_access_reads_example =
    write_access_reads (some "reader") (some "editor") (some "admin") ("pipeline" ∷ []) service
      editor ("editor" ∷ []) "POST" "GET" refl refl refl refl

before_request_example :
    IsAdmitted validate service none request none
      (before_request_authentication validate service live (λ t. none) none request none fresh).1
unfolding before_request_authentication authenticate_request extract_token_from_request
    check_authorization resolve_required_role by_method same_letters service check_roles editor
    contains
before_request_example =
    before_request-IsAdmitted validate service none live (λ t. none) request none fresh refl refl
      refl refl

abbrev cookies : CookieSettings
cookies = record {
  oidc_cookie_name = "access_token";
  oidc_refresh_cookie_name = "refresh_token";
  oidc_cookie_secure = true;
  oidc_cookie_samesite = "Lax";
  oidc_cookie_partitioned = false;
}

abbrev expiry : String → Option ℕ
expiry token = none

abbrev refuse : String → Result AuthenticationException PendingTokenRefresh
refuse token = err "refused"

abbrev stale : Request
stale = record request { access_cookie = some "old"; refresh_cookie = some "used" }

refused_refresh_clears_example :
    ((authenticate_request validate service (some refuse) stale none fresh).0
      ≡ err (unauthenticated "Session expired, please login again"))
    × (after_request_set_cookies cookies expiry
          (authenticate_request validate service (some refuse) stale none fresh).1
          []
        ≡ set_cookie cookies expiry "access_token" "" (pos 0)
          ∷ set_cookie cookies expiry "refresh_token" "" (pos 0)
          ∷ set_cookie cookies expiry "id_token" "" (pos 0)
          ∷ [])
unfolding extract_token_from_request
refused_refresh_clears_example =
    refused_refresh_clears cookies expiry validate service refuse stale none fresh "used" "refused"
      [] (inr ("old", "Token has expired", refl, refl, refl, refl)) refl refl refl
