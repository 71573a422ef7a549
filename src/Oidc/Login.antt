-- ===== src/Oidc/Login.antt =====
-- app/api/auth.py: the endpoints of the login. Parameters are those of the OIDC client and of the
-- login state, and `validate`, which is `AuthService.validate_token`.
pub mod RoundTrip
pub mod Redirects
pub mod Completion
pub mod Logout
use Prim.Native.String.{String, ◌++◌ as append}
use zigbee_control.Prelude.{
  ℕ, Bool, true, false, not, Option, none, some, List, [], ◌∷◌, ◌++◌, if◌then◌else◌, truthy,
  truthy_opt,
}
use zigbee_control.Prelude.Int.{ℤ, pos}
use zigbee_control.Prelude.Results.{Result, ok, err, ◌>>=◌}
use zigbee_control.Prelude.Texts.{starts_with}
use zigbee_control.Dict.{Dict}
use zigbee_control.Settings.{Settings}
use zigbee_control.Errors.{
  Exception, validation_exception, authentication_exception, other_exception,
}
use zigbee_control.Auth.Tokens.{AuthenticationException, AuthContext}
use zigbee_control.Auth.Cookies.{CookieSettings, SetCookie, set_cookie}
use zigbee_control.Oidc.{
  OidcClientService, OidcEndpoints, AuthState, Form, TokenAnswer, TokenResponse, create_auth_state,
  build_authorization_url, exchange_code_for_tokens, endpoints_of, get_or,
}
use zigbee_control.Oidc.State.{
  Loaded, Url, serialize_auth_state, deserialize_auth_state, validate_redirect_url,
}

-- A redirect with the cookies that it sets.
pub record Redirect : Type 0 where
  pub location : String
  pub cookies : List SetCookie

abbrev pub cookie_settings : Settings → CookieSettings
cookie_settings config = record {
  oidc_cookie_name = config.oidc_cookie_name;
  oidc_refresh_cookie_name = config.oidc_refresh_cookie_name;
  oidc_cookie_secure = config.oidc_cookie_secure;
  oidc_cookie_samesite = config.oidc_cookie_samesite;
  oidc_cookie_partitioned = config.oidc_cookie_partitioned;
}

abbrev pub raised {ℓ} : {A : Type ℓ} → Result AuthenticationException A → Result Exception A
raised (ok a) = ok a
raised (err message) = err (authentication_exception message)

abbrev pub value_error {ℓ} : {A : Type ℓ} → Result String A → Result Exception A
value_error (ok a) = ok a
value_error (err message) = err (other_exception message)

-- `if not s: raise ValidationException(message)` for a query parameter.
abbrev pub parameter : (message : String) → Option String → Result Exception String
parameter message none = err (validation_exception message)
parameter message (some s) = if truthy s then ok s else err (validation_exception message)

abbrev pub require_oidc : Settings → Result Exception (Unit {0})
require_oidc config =
    if config.oidc_enabled
    then ok tt
    else err (validation_exception "Authentication is not enabled")

module _ (urlparse : String → Result String Url) (urlencode : Form → String) where
  module _ (sha256_base64 : String → String) (encrypt : (key plaintext : String) → String)
      (dumps : Dict String String → String) where
    -- The random texts are those of `create_auth_state`.
    unfoldable pub login :
        OidcClientService
        → Settings
        → (code_verifier nonce : String) → (redirect_parameter : Option String)
        → Result Exception Redirect
    login client config code_verifier nonce redirect_parameter = do
      _ ← require_oidc config
      redirect_url ← parameter "Missing required 'redirect' parameter" redirect_parameter
      _ ← validate_redirect_url urlparse redirect_url config.baseurl
      let auth_state = create_auth_state code_verifier nonce redirect_url
      let encrypted_state =
          serialize_auth_state sha256_base64 encrypt dumps auth_state config.secret_key
      location ←
          value_error
            (build_authorization_url sha256_base64 urlencode client auth_state encrypted_state)
      ok (record { location = location; cookies = [] })

  abbrev pub post_logout_uri : Settings → (redirect_url : String) → String
  post_logout_uri config redirect_url =
      if starts_with "/" redirect_url then append config.baseurl redirect_url else redirect_url

  abbrev pub id_token_hint : Option String → Form
  id_token_hint id_token = if truthy_opt id_token then ("id_token_hint", id_token) ∷ [] else []

  abbrev pub logout_params : Settings → (redirect_url : String) → (id_token : Option String) → Form
  logout_params config redirect_url id_token =
      ("client_id", some (get_or config.oidc_client_id ""))
      ∷ ("post_logout_redirect_uri", some (post_logout_uri config redirect_url))
      ∷ id_token_hint id_token

  abbrev pub provider_logout :
      Settings → (redirect_url : String) → (id_token end_session_endpoint : Option String) → String
  provider_logout config redirect_url id_token none = redirect_url
  provider_logout config redirect_url id_token (some endpoint) =
      if truthy endpoint
      then append endpoint (append "?" (urlencode (logout_params config redirect_url id_token)))
      else redirect_url

  abbrev pub logout_location :
      Result String OidcEndpoints
      → Settings
      → (redirect_url : String) → (id_token : Option String) → String
  logout_location (err message) config redirect_url id_token = redirect_url
  logout_location (ok endpoints) config redirect_url id_token =
      if config.oidc_enabled
      then provider_logout config redirect_url id_token endpoints.end_session_endpoint
      else redirect_url

  module _ (expiry : String → Option ℕ) where
    abbrev pub cleared_cookies : Settings → List SetCookie
    cleared_cookies config =
        let set = set_cookie (cookie_settings config) expiry in
        set config.oidc_cookie_name "" (pos 0)
        ∷ set config.oidc_refresh_cookie_name "" (pos 0)
        ∷ set "id_token" "" (pos 0)
        ∷ []

    unfoldable pub logout :
        OidcClientService
        → Settings
        → (redirect_parameter id_token : Option String) → Result Exception Redirect
    logout client config redirect_parameter id_token =
        let redirect_url = get_or redirect_parameter "/" in
        do
          _ ← validate_redirect_url urlparse redirect_url config.baseurl
          ok (record {
            location = logout_location (endpoints_of client) config redirect_url id_token;
            cookies = cleared_cookies config;
          })

module _ (validate : String → Result AuthenticationException AuthContext)
    (expiry : String → Option ℕ) where
  abbrev pub access_cookie : Settings → TokenResponse → SetCookie
  access_cookie config tokens =
      set_cookie (cookie_settings config) expiry config.oidc_cookie_name tokens.access_token
        tokens.expires_in

  abbrev pub refresh_cookie_within :
      Settings → (token : String) → Option ℕ → Result Exception (List SetCookie)
  refresh_cookie_within config token none = err (
      authentication_exception
        "Refresh token missing 'exp' claim — cannot determine cookie lifetime")
  refresh_cookie_within config token (some seconds) = ok (
      set_cookie (cookie_settings config) expiry config.oidc_refresh_cookie_name token (pos seconds)
      ∷ [])

  abbrev pub refresh_cookies : Settings → Option String → Result Exception (List SetCookie)
  refresh_cookies config none = ok []
  refresh_cookies config (some token) =
      if truthy token then refresh_cookie_within config token (expiry token) else ok []

  abbrev pub id_cookies : Settings → TokenResponse → Option String → List SetCookie
  id_cookies config tokens none = []
  id_cookies config tokens (some token) =
      if truthy token
      then set_cookie (cookie_settings config) expiry "id_token" token tokens.expires_in ∷ []
      else []

  -- The part of `callback` after the exchange.
  unfoldable pub finish_login : Settings → AuthState → TokenResponse → Result Exception Redirect
  finish_login config auth_state tokens = do
    _ ← raised (validate tokens.access_token)
    refreshing ← refresh_cookies config tokens.refresh_token
    ok (record {
      location = auth_state.redirect_url;
      cookies =
          access_cookie config tokens ∷ refreshing ++ id_cookies config tokens tokens.id_token;
    })

  module _ (sha256_base64 : String → String)
      (decrypt : (key : String) → (max_age : ℕ) → (token : String) → Option String)
      (loads : String → Loaded) (post : (url : String) → Form → TokenAnswer) where
    unfoldable pub callback :
        OidcClientService → Settings → (code state : Option String) → Result Exception Redirect
    callback client config code_parameter state_parameter = do
      _ ← require_oidc config
      -- Both parameters are read before either is checked.
      code ← parameter "Missing 'code' parameter in callback" code_parameter
      state ← parameter "Missing 'state' parameter in callback" state_parameter
      auth_state ← deserialize_auth_state sha256_base64 decrypt loads state config.secret_key
      tokens ← exchange_code_for_tokens post client code auth_state.code_verifier
      finish_login config auth_state tokens
