-- ===== src/Oidc/Renewal.antt =====
-- The exchange of a refresh token as `authenticate_request` of app/utils/auth.py uses it: the
-- parameter `refresh` of the model of the access check is `refresh_access_token` of the OIDC client.
use zigbee_control.Prelude.{
  ◌≡◌, refl, sym, ◌∙◌, inl, inr, ℕ, String, Bool, true, false, Option, none, some, List, [], ◌∷◌,
  ◌++◌, truthy,
}
use mathlib.Core.Option.{some-injective}
use zigbee_control.Prelude.Int.{ℤ, pos}
use zigbee_control.Prelude.Results.{Result, ok, err}
use zigbee_control.Errors.{Exception, business, authentication}
use zigbee_control.Auth.Roles.{AuthService, ViewFunc}
use zigbee_control.Auth.Tokens.{AuthenticationException, AuthContext, Request}
use zigbee_control.Auth.Access.{
  PendingTokenRefresh, G, check_authorization, authenticate_request, try_refresh,
}
use zigbee_control.Auth.Cookies.{CookieSettings, SetCookie, set_cookie, after_request_set_cookies}
use zigbee_control.Auth.Cookies.Clearing.{HasNoSession}
use zigbee_control.Oidc.{
  OidcClientService, OidcEndpoints, Form, TokenAnswer, TokenData, TokenResponse, answers, get_or,
  refresh_form, refresh_access_token, endpoints_of,
}

abbrev pub pending_of : TokenResponse → PendingTokenRefresh
pending_of tokens = record {
  access_token = tokens.access_token;
  refresh_token = tokens.refresh_token;
  access_token_expires_in = tokens.expires_in;
}

-- What the caller gets or catches: an exception of another class goes through it.
abbrev pub caught :
    Result Exception TokenResponse → Option (Result AuthenticationException PendingTokenRefresh)
caught (ok tokens) = some (ok (pending_of tokens))
caught (err (business authentication message)) = some (err message)
caught (err _) = none

endpoints_known :
    (client : OidcClientService) (endpoints : OidcEndpoints)
    → client.endpoints ≡ some endpoints
    → endpoints_of client ≡ ok endpoints
unfolding endpoints_of
endpoints_known client endpoints known = simp known refl

module _ (validate : String → Result AuthenticationException AuthContext) (service : AuthService)
    (exchange : String → Result AuthenticationException PendingTokenRefresh) (request : Request)
    (func : Option ViewFunc) (g : G) (token : String) (pending : PendingTokenRefresh)
    (context : AuthContext) where
  abbrev renewed_state : G
  renewed_state = record g { auth_context = some context; pending_token_refresh = some pending }

  try_refresh-renewed :
      (expired : Bool) (cookie : Option String)
      → cookie ≡ some token
      → truthy token ≡ true
      → exchange token ≡ ok pending
      → validate pending.access_token ≡ ok context
      → check_authorization context service request.method func ≡ ok tt
      → try_refresh validate service (some exchange) expired cookie request func g
        ≡ (ok tt, renewed_state)
  try_refresh-renewed expired cookie c filled exchanged valid allowed =
      rw c (simp (filled, exchanged, valid, allowed) refl)

  authenticate_renewed :
      HasNoSession validate request
      → request.refresh_cookie ≡ some token
      → truthy token ≡ true
      → exchange token ≡ ok pending
      → validate pending.access_token ≡ ok context
      → check_authorization context service request.method func ≡ ok tt
      → authenticate_request validate service (some exchange) request func g
        ≡ (ok tt, renewed_state)
  unfolding authenticate_request
  authenticate_renewed (inl missing) c filled exchanged valid allowed =
      simp missing
        (try_refresh-renewed false request.refresh_cookie c filled exchanged valid allowed)
  authenticate_renewed (inr (sent, message, present, given, refused, says)) c filled exchanged valid
        allowed =
      simp (present, given, refused, says)
        (try_refresh-renewed true request.refresh_cookie c filled exchanged valid allowed)

module _ (post : (url : String) → Form → TokenAnswer) (client : OidcClientService) where
  -- What the provider is asked with a refresh token, and how it answers.
  pub record Renews (token : String) (endpoints : OidcEndpoints) (access : String) (seconds : ℤ)
      : Type 0 where
    pub received : TokenData
    pub known : client.endpoints ≡ some endpoints
    pub answered :
        post endpoints.token_endpoint (refresh_form client.config token) ≡ answers received
    pub granted : received.access_token ≡ some access
    pub filled : truthy access ≡ true
    pub lifetime : received.expires_in ≡ some (some seconds)
    pub kept : received.refresh_token ≡ none

  refresh_access_token-Renews :
      (token : String) (endpoints : OidcEndpoints) (access : String) (seconds : ℤ)
      → (r : Renews token endpoints access seconds)
      → caught (refresh_access_token post client token)
        ≡ some (
            ok (record {
              access_token = access;
              refresh_token = some token;
              access_token_expires_in = seconds;
            }))
  unfolding refresh_access_token get_or
  refresh_access_token-Renews token endpoints access seconds r =
      let known = endpoints_known client endpoints r.known in
      simp known (simp r.answered (simp r.granted (simp (r.filled, r.lifetime, r.kept) refl)))

  -- When a request has no access token, or an expired one, and the provider answers the refresh token
  -- of its cookie with a new access token that is valid and whose roles pass the check, the request
  -- passes, and its answer sets the cookie of the new access token for the time that the provider
  -- gave, and the cookie of the refresh token, which is kept, for the time until its expiry.
  pub refresh-Renews :
      (validate : String → Result AuthenticationException AuthContext) (service : AuthService)
      (exchange : String → Result AuthenticationException PendingTokenRefresh)
      (config : CookieSettings) (expiry : String → Option ℕ) (request : Request)
      (func : Option ViewFunc) (g : G) (response : List SetCookie) (endpoints : OidcEndpoints)
      (token access : String) (seconds : ℤ) (left : ℕ) (context : AuthContext)
      → caught (refresh_access_token post client token) ≡ some (exchange token)
      → Renews token endpoints access seconds
      → HasNoSession validate request
      → request.refresh_cookie ≡ some token
      → truthy token ≡ true
      → validate access ≡ ok context
      → check_authorization context service request.method func ≡ ok tt
      → expiry token ≡ some left
      → g.clear_auth_cookies ≡ false
      → let out = authenticate_request validate service (some exchange) request func g in
        (out.0 ≡ ok tt)
        × (out.1.auth_context ≡ some context)
        × (after_request_set_cookies config expiry out.1 response
            ≡ response
              ++ set_cookie config expiry config.oidc_cookie_name access seconds
                ∷ set_cookie config expiry config.oidc_refresh_cookie_name token (pos left)
                ∷ [])
  unfolding authenticate_request after_request_set_cookies
  refresh-Renews validate service exchange config expiry request func g response endpoints token
        access seconds left context agrees renews none_yet cookie filled valid allowed ends clear =
      let exchanged =
        some-injective _ _
          (sym agrees ∙ refresh_access_token-Renews token endpoints access seconds renews) in
      let passes =
        authenticate_renewed validate service exchange request func g token _ context none_yet
          cookie filled exchanged valid allowed in
      simp (passes, clear, filled, ends) (refl, refl, refl)
