-- ===== src/Auth/Access/Guard.antt =====
-- What a request has shown when the hook lets it pass.
use zigbee_control.Prelude.{
  ◌≡◌, refl, inl, inr, String, Bool, true, false, Option, none, some, string_eq, nat_eq, truthy_opt,
  Bool-cases,
}
use zigbee_control.Prelude.Results.{Result, ok, err}
use zigbee_control.Auth.Roles.{AuthService, ViewFunc}
use zigbee_control.Auth.Tokens.{
  AuthenticationException, AuthContext, Request, extract_token_from_request, mentions,
}
use zigbee_control.Auth.Access.{
  AuthorizationException, check_authorization, PendingTokenRefresh, G, AccessError, unauthenticated,
  forbidden, or_forbidden, checked, after_refresh, refreshed, try_refresh, with_validated,
  with_token, authenticate_request,
}
use zigbee_control.Auth.Access.Hook.{
  pass, answer, TestSession, Settings, test_session, is_public_view, by_session,
  before_request_authentication,
}

or_forbidden-ok :
    (r : Result AuthorizationException (Unit {0})) → or_forbidden r ≡ ok tt → r ≡ ok tt
or_forbidden-ok (ok _) h = refl
or_forbidden-ok (err e) h = cc

answer-pass : (r : Result AccessError (Unit {0})) → answer r ≡ pass → r ≡ ok tt
answer-pass (ok _) h = refl
answer-pass (err (unauthenticated e)) h = cc
answer-pass (err (forbidden e)) h = cc

no_session :
    (config : Settings) (get_session : String → Option TestSession) (cookie : Option String)
    → config.is_testing ≡ false
    → test_session config get_session cookie ≡ none
no_session config get_session none live = refl
no_session config get_session (some token) live = rw live refl

module _ (validate : String → Result AuthenticationException AuthContext) (service : AuthService)
    (refresh : Option (String → Result AuthenticationException PendingTokenRefresh)) where
  -- Where the context comes from: the request's own token, or the token that its refresh token was
  -- exchanged for.
  pub data IsVouched (request : Request) (context : AuthContext) : Type 0 where
    by_token :
        (token : String)
        → extract_token_from_request request ≡ some token
        → validate token ≡ ok context
        → IsVouched request context
    by_refresh :
        (exchange : String → Result AuthenticationException PendingTokenRefresh) (token : String)
        (tokens : PendingTokenRefresh)
        → refresh ≡ some exchange
        → request.refresh_cookie ≡ some token
        → exchange token ≡ ok tokens
        → validate tokens.access_token ≡ ok context
        → IsVouched request context

  pub record IsAdmitted (request : Request) (func : Option ViewFunc) (g : G) : Type 0 where
    pub context : AuthContext
    pub stored : g.auth_context ≡ some context
    pub allowed : check_authorization context service request.method func ≡ ok tt
    pub vouched : IsVouched request context

  checked-IsAdmitted :
      (context : AuthContext) (request : Request) (func : Option ViewFunc) (g : G)
      → (checked validate service context request func g).0 ≡ ok tt
      → IsVouched request context
      → IsAdmitted request func (checked validate service context request func g).1
  checked-IsAdmitted context request func g h v = record {
    context = context;
    stored = refl;
    allowed = or_forbidden-ok _ h;
    vouched = v;
  }

  after_refresh-IsAdmitted :
      (exchange : String → Result AuthenticationException PendingTokenRefresh) (token : String)
      (tokens : PendingTokenRefresh) (request : Request) (func : Option ViewFunc) (g : G)
      → refresh ≡ some exchange
      → request.refresh_cookie ≡ some token
      → exchange token ≡ ok tokens
      → (r : Result AuthenticationException AuthContext) → validate tokens.access_token ≡ r
      → (after_refresh validate service r tokens request func g).0 ≡ ok tt
      → IsAdmitted request func (after_refresh validate service r tokens request func g).1
  after_refresh-IsAdmitted exchange token tokens request func g e c x (err m) v h = absurd (cc h)
  after_refresh-IsAdmitted exchange token tokens request func g e c x (ok context) v h =
      checked-IsAdmitted context request func (record g { pending_token_refresh = some tokens }) h
        (by_refresh exchange token tokens e c x v)

  refreshed-IsAdmitted :
      (exchange : String → Result AuthenticationException PendingTokenRefresh) (token : String)
      (request : Request) (func : Option ViewFunc) (g : G)
      → refresh ≡ some exchange
      → request.refresh_cookie ≡ some token
      → (r : Result AuthenticationException PendingTokenRefresh) → exchange token ≡ r
      → (refreshed validate service r request func g).0 ≡ ok tt
      → IsAdmitted request func (refreshed validate service r request func g).1
  refreshed-IsAdmitted exchange token request func g e c (err m) x h = absurd (cc h)
  refreshed-IsAdmitted exchange token request func g e c (ok tokens) x h =
      after_refresh-IsAdmitted exchange token tokens request func g e c x
        (validate tokens.access_token) refl h

  try_refresh-IsAdmitted :
      (maybe : Option (String → Result AuthenticationException PendingTokenRefresh))
      (expired : Bool) (cookie : Option String) (request : Request) (func : Option ViewFunc) (g : G)
      → refresh ≡ maybe
      → request.refresh_cookie ≡ cookie
      → (try_refresh validate service maybe expired cookie request func g).0 ≡ ok tt
      → IsAdmitted request func (try_refresh validate service maybe expired cookie request func g).1
  try_refresh-IsAdmitted maybe expired none request func g e c = λ h. absurd (cc h)
  try_refresh-IsAdmitted none expired (some token) request func g e c =
      elim (Bool-cases (truthy_opt (some token))) [
        | inl full ↦ rw full (λ h. absurd (cc h))
        | inr empty ↦ rw empty (λ h. absurd (cc h))
      ]
  try_refresh-IsAdmitted (some exchange) expired (some token) request func g e c =
      elim (Bool-cases (truthy_opt (some token))) [
        | inl full ↦ rw full (refreshed-IsAdmitted exchange token request func g e c _ refl)
        | inr empty ↦ rw empty (λ h. absurd (cc h))
      ]

  with_validated-IsAdmitted :
      (token : String) (request : Request) (func : Option ViewFunc) (g : G)
      → extract_token_from_request request ≡ some token
      → (r : Result AuthenticationException AuthContext) → validate token ≡ r
      → (with_validated validate service refresh r request func g).0 ≡ ok tt
      → IsAdmitted request func (with_validated validate service refresh r request func g).1
  with_validated-IsAdmitted token request func g e (ok context) v =
      λ h. checked-IsAdmitted context request func g h (by_token token e v)
  with_validated-IsAdmitted token request func g e (err message) v =
      elim (Bool-cases (mentions "EXPIRED" message)) [
        | inl expired ↦
            rw expired
              (try_refresh-IsAdmitted refresh true request.refresh_cookie request func g refl refl)
        | inr other ↦ rw other (λ h. absurd (cc h))
      ]

  with_token-IsAdmitted :
      (request : Request) (func : Option ViewFunc) (g : G) (token : Option String)
      → extract_token_from_request request ≡ token
      → (with_token validate service refresh token request func g).0 ≡ ok tt
      → IsAdmitted request func (with_token validate service refresh token request func g).1
  with_token-IsAdmitted request func g none e =
      try_refresh-IsAdmitted refresh false request.refresh_cookie request func g refl refl
  with_token-IsAdmitted request func g (some token) e =
      elim (Bool-cases (truthy_opt (some token))) [
        | inl full ↦
            rw full (with_validated-IsAdmitted token request func g e (validate token) refl)
        | inr empty ↦
            rw empty
              (try_refresh-IsAdmitted refresh false request.refresh_cookie request func g refl refl)
      ]

  -- A request is let through only with a context that is stored for the view, that the token of the
  -- request vouches for, or the token its refresh token was exchanged for, and whose roles pass the
  -- check of the endpoint.
  pub authenticate_request-IsAdmitted :
      (request : Request) (func : Option ViewFunc) (g : G)
      → (authenticate_request validate service refresh request func g).0 ≡ ok tt
      → IsAdmitted request func (authenticate_request validate service refresh request func g).1
  unfolding authenticate_request
  authenticate_request-IsAdmitted request func g =
      with_token-IsAdmitted request func g (extract_token_from_request request) refl

  -- With OIDC on, outside the testing mode, the hook lets a request to an endpoint that is not
  -- marked public pass only if it is admitted.
  pub before_request-IsAdmitted :
      (config : Settings) (get_session : String → Option TestSession) (request : Request)
      (func : Option ViewFunc) (g : G)
      → config.oidc_enabled ≡ true
      → config.is_testing ≡ false
      → is_public_view func ≡ false
      → (before_request_authentication validate service config get_session refresh request func g).0
        ≡ pass
      → IsAdmitted request func
          (before_request_authentication validate service config get_session refresh request func
            g).1
  unfolding before_request_authentication
  before_request-IsAdmitted config get_session request func g on live private =
      rw (private, before_request_authentication)
        (rw (no_session config get_session request.access_cookie live, by_session)
          (rw on (λ h. authenticate_request-IsAdmitted request func g (answer-pass _ h))))
