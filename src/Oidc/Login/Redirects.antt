-- ===== src/Oidc/Login/Redirects.antt =====
-- Where the login endpoints send the browser, and with which cookies.
use zigbee_control.Prelude.{
  ◌≡◌, refl, ap, sym, subst, ◌∙◌, inl, inr, ℕ, String, true, Option, none, some, List, truthy,
  Bool-cases, All, All-append,
}
use zigbee_control.Prelude.Results.{Result, ok, ok-injective, Result-cases}
use zigbee_control.Dict.{Dict}
use zigbee_control.Settings.{Settings}
use zigbee_control.Auth.Tokens.{AuthenticationException, AuthContext}
use zigbee_control.Auth.Cookies.{SetCookie, set_cookie}
use zigbee_control.Auth.Cookies.Clearing.{IsGuarded}
use zigbee_control.Oidc.{
  OidcClientService, AuthState, Form, TokenResponse, create_auth_state, build_authorization_url,
}
use zigbee_control.Oidc.State.{Url, serialize_auth_state, validate_redirect_url}
use zigbee_control.Oidc.Login.{
  Redirect, cookie_settings, parameter, login, finish_login, refresh_cookies, refresh_cookie_within,
  id_cookies,
}

pub parameter-ok :
    (message : String) (o : Option String) (s : String)
    → parameter message o ≡ ok s
    → (o ≡ some s) × (truthy s ≡ true)
parameter-ok message none s h = cc
parameter-ok message (some t) s h = elim (Bool-cases (truthy t)) [
  | inl e ↦ let same : t ≡ s = cc (rw e at h) in (ap some same, subst (λ q. truthy q ≡ true) same e)
  | inr e ↦ absurd (cc (rw e at h))
]

module _ (urlparse : String → Result String Url) (urlencode : Form → String)
    (sha256_base64 : String → String) (encrypt : (key plaintext : String) → String)
    (dumps : Dict String String → String) where
  -- The login redirects only to the authorization URL whose state encrypts the login's verifier and a
  -- redirect URL that was checked.
  pub login-IsChecked :
      (client : OidcClientService) (config : Settings) (code_verifier nonce : String)
      (redirect_parameter : Option String) (answer : Redirect)
      → login urlparse urlencode sha256_base64 encrypt dumps client config code_verifier nonce
          redirect_parameter
        ≡ ok answer
      → (redirect_url : String) × (redirect_parameter ≡ some redirect_url)
        × (config.oidc_enabled ≡ true)
        × (validate_redirect_url urlparse redirect_url config.baseurl ≡ ok tt)
        × (let s = create_auth_state code_verifier nonce redirect_url in
            build_authorization_url sha256_base64 urlencode client s
              (serialize_auth_state sha256_base64 encrypt dumps s config.secret_key)
            ≡ ok answer.location)
  unfolding login
  login-IsChecked client config code_verifier nonce redirect_parameter answer h =
      elim (Bool-cases config.oidc_enabled) [
        | inr off ↦ absurd (cc (simp off at h))
        | inl on ↦
            elim (Result-cases
              (parameter "Missing required 'redirect' parameter" redirect_parameter)) [
                | inr (e, failed) ↦ absurd (cc (simp (on, failed) at h))
                | inl (redirect_url, given) ↦
                    elim (Result-cases
                      (validate_redirect_url urlparse redirect_url config.baseurl)) [
                        | inr (e, failed) ↦ absurd (cc (simp (on, given, failed) at h))
                        | inl (u, checked) ↦
                            let s = create_auth_state code_verifier nonce redirect_url in
                            let state =
                              serialize_auth_state sha256_base64 encrypt dumps s
                                config.secret_key in
                            elim (Result-cases
                              (build_authorization_url sha256_base64 urlencode client s state)) [
                                | inr (e, failed) ↦
                                    absurd (cc (simp (on, given, checked, failed) at h))
                                | inl (location, built) ↦
                                    let same : location ≡ answer.location =
                                      ap (λ r. r.location)
                                        (ok-injective refl
                                          (simp (on, given, checked, built) at h)) in
                                    (
                                      redirect_url,
                                      (parameter-ok _ redirect_parameter redirect_url given).0,
                                      on,
                                      checked,
                                      built ∙ ap ok same,
                                    )
                              ]
                      ]
              ]
      ]

module _ (validate : String → Result AuthenticationException AuthContext)
    (expiry : String → Option ℕ) (config : Settings) where
  abbrev IsSafe : SetCookie → Type 0
  IsSafe = IsGuarded (cookie_settings config) expiry

  id_cookies-IsSafe :
      (tokens : TokenResponse) (token : Option String)
      → All IsSafe (id_cookies validate expiry config tokens token)
  unfolding set_cookie
  id_cookies-IsSafe tokens none = tt
  id_cookies-IsSafe tokens (some token) = elim (Bool-cases (truthy token)) [
    | inl e ↦ rw e (refl, tt)
    | inr e ↦ rw e tt
  ]

  refresh_within-IsSafe :
      (token : String) (seconds : Option ℕ) (cookies : List SetCookie)
      → refresh_cookie_within validate expiry config token seconds ≡ ok cookies
      → All IsSafe cookies
  unfolding set_cookie
  refresh_within-IsSafe token none cookies h = cc
  refresh_within-IsSafe token (some seconds) cookies h =
      subst (All IsSafe) (ok-injective refl h) (refl, tt)

  refresh_cookies-IsSafe :
      (token : Option String) (cookies : List SetCookie)
      → refresh_cookies validate expiry config token ≡ ok cookies
      → All IsSafe cookies
  refresh_cookies-IsSafe none cookies h = subst (All IsSafe) (ok-injective refl h) tt
  refresh_cookies-IsSafe (some token) cookies h = elim (Bool-cases (truthy token)) [
    | inl e ↦ refresh_within-IsSafe token (expiry token) cookies (rw e at h)
    | inr e ↦ subst (All IsSafe) (ok-injective refl (rw e at h)) tt
  ]

  -- What a finished login has shown, and its answer.
  pub record IsFinished (s : AuthState) (tokens : TokenResponse) (answer : Redirect) : Type 0 where
    pub context : AuthContext
    pub valid : validate tokens.access_token ≡ ok context
    pub back : answer.location ≡ s.redirect_url
    pub safe : All IsSafe answer.cookies

  pub finish_login-IsFinished :
      (s : AuthState) (tokens : TokenResponse) (answer : Redirect)
      → finish_login validate expiry config s tokens ≡ ok answer
      → IsFinished s tokens answer
  unfolding finish_login set_cookie
  finish_login-IsFinished s tokens answer h = elim (Result-cases (validate tokens.access_token)) [
    | inr (e, failed) ↦ absurd (cc (simp failed at h))
    | inl (context, valid) ↦
        elim (Result-cases (refresh_cookies validate expiry config tokens.refresh_token)) [
          | inr (e, failed) ↦ absurd (cc (simp (valid, failed) at h))
          | inl (cookies, refreshing) ↦
              let same = ok-injective refl (simp (valid, refreshing) at h) in
              record {
                context = context;
                valid = valid;
                back = sym (ap (λ r. r.location) same);
                safe =
                    subst (λ r. All IsSafe r.cookies) same
                      (
                        refl,
                        All-append IsSafe cookies _
                            (refresh_cookies-IsSafe tokens.refresh_token cookies refreshing)
                            (id_cookies-IsSafe tokens tokens.id_token),
                      );
              }
        ]
  ]
