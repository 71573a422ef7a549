-- ===== src/Auth/Cookies/Clearing.antt =====
-- What the browser is told when the session is over, and how every cookie is set.
use zigbee_control.Prelude.{
  ◌≡◌, refl, ◌⊎◌, inl, inr, ℕ, String, Bool, true, false, Option, none, some, List, [], ◌∷◌, ◌++◌,
  truthy_opt, Bool-cases, Option-cases, All, All-append,
}
use zigbee_control.Prelude.Int.{pos}
use zigbee_control.Prelude.Results.{Result, err}
use zigbee_control.Auth.Roles.{AuthService, ViewFunc}
use zigbee_control.Auth.Tokens.{
  AuthenticationException, AuthContext, Request, extract_token_from_request, mentions,
}
use zigbee_control.Auth.Access.{
  PendingTokenRefresh, G, unauthenticated, authenticate_request, try_refresh,
}
use zigbee_control.Auth.Cookies.{
  CookieSettings, SetCookie, get_cookie_kwargs, set_cookie, clear_auth_cookies, set_refreshed,
  set_pending, after_request_set_cookies,
}

-- The request has no access token, or one that is refused as expired.
abbrev pub HasNoSession : (String → Result AuthenticationException AuthContext) → Request → Type 0
HasNoSession validate request =
    (extract_token_from_request request ≡ none)
    ⊎ ((token message : String) × (extract_token_from_request request ≡ some token)
        × (truthy_opt (some token) ≡ true)
        × (validate token ≡ err message)
        × (mentions "EXPIRED" message ≡ true))

module _ (config : CookieSettings) (expiry : String → Option ℕ) where
  refresh_refused :
      (validate : String → Result AuthenticationException AuthContext) (service : AuthService)
      (exchange : String → Result AuthenticationException PendingTokenRefresh) (request : Request)
      (func : Option ViewFunc) (g : G) (token reason : String) (expired : Bool)
      (cookie : Option String)
      → cookie ≡ some token
      → truthy_opt (some token) ≡ true
      → exchange token ≡ err reason
      → try_refresh validate service (some exchange) expired cookie request func g ≡ (
        err (unauthenticated "Session expired, please login again"),
        record g { clear_auth_cookies = true },
      )
  refresh_refused validate service exchange request func g token reason expired cookie c full e =
      rw c (rw full (rw e refl))

  -- A request that has no access token, or one that is refused as expired, and whose refresh token
  -- the provider refuses, is answered with the error "Session expired, please login again", and its
  -- answer clears the three cookies.
  pub refused_refresh_clears :
      (validate : String → Result AuthenticationException AuthContext) (service : AuthService)
      (exchange : String → Result AuthenticationException PendingTokenRefresh) (request : Request)
      (func : Option ViewFunc) (g : G) (token reason : String) (response : List SetCookie)
      → HasNoSession validate request
      → request.refresh_cookie ≡ some token
      → truthy_opt (some token) ≡ true
      → exchange token ≡ err reason
      → let out = authenticate_request validate service (some exchange) request func g in
        (out.0 ≡ err (unauthenticated "Session expired, please login again"))
        × (after_request_set_cookies config expiry out.1 response
            ≡ response
              ++ set_cookie config expiry config.oidc_cookie_name "" (pos 0)
                ∷ set_cookie config expiry config.oidc_refresh_cookie_name "" (pos 0)
                ∷ set_cookie config expiry "id_token" "" (pos 0)
                ∷ [])
  unfolding authenticate_request after_request_set_cookies clear_auth_cookies
  refused_refresh_clears validate service exchange request func g token reason response
        (inl missing) c full e =
      rw (missing, authenticate_request)
        (rw
          (refresh_refused validate service exchange request func g token reason false
            request.refresh_cookie c full e)
          (refl, refl))
  refused_refresh_clears validate service exchange request func g token reason response
        (inr (sent, message, present, filled, refused, says)) c full e =
      rw (present, authenticate_request)
        (rw filled (
          rw refused (
            rw says (
              rw
                (refresh_refused validate service exchange request func g token reason true
                  request.refresh_cookie c full e)
                (refl, refl)))))

  abbrev pub IsGuarded : SetCookie → Type 0
  IsGuarded cookie = cookie.kwargs ≡ get_cookie_kwargs config

  refreshed-IsGuarded :
      (pending : PendingTokenRefresh) (token : Option String) (response : List SetCookie)
      → All IsGuarded response
      → All IsGuarded (set_refreshed config expiry pending token response)
  unfolding clear_auth_cookies set_cookie
  refreshed-IsGuarded pending none response h = All-append IsGuarded response _ h (refl, tt)
  refreshed-IsGuarded pending (some token) response h =
      elim (Bool-cases (truthy_opt (some token))) [
        | inl full ↦ elim (Option-cases (expiry token)) [
          | inl e ↦ rw full (rw e (All-append IsGuarded response _ h (refl, (refl, (refl, tt)))))
          | inr (seconds, e) ↦ rw full (rw e (All-append IsGuarded response _ h (refl, (refl, tt))))
        ]
        | inr empty ↦ rw empty (All-append IsGuarded response _ h (refl, tt))
      ]

  pending-IsGuarded :
      (pending : Option PendingTokenRefresh) (response : List SetCookie)
      → All IsGuarded response
      → All IsGuarded (set_pending config expiry pending response)
  pending-IsGuarded none response h = h
  pending-IsGuarded (some pending) response h =
      refreshed-IsGuarded pending pending.refresh_token response h

  -- If every cookie of an answer has the configured attributes, and `httponly` with them, so has
  -- every cookie of the answer that the hook leaves.
  pub after_request-IsGuarded :
      (g : G) (response : List SetCookie)
      → All IsGuarded response
      → All IsGuarded (after_request_set_cookies config expiry g response)
  unfolding after_request_set_cookies clear_auth_cookies set_cookie
  after_request-IsGuarded g response h = elim (Bool-cases g.clear_auth_cookies) [
    | inl e ↦ rw e (All-append IsGuarded response _ h (refl, (refl, (refl, tt))))
    | inr e ↦ rw e (pending-IsGuarded g.pending_token_refresh response h)
  ]
