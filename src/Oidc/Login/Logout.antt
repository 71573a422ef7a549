-- ===== src/Oidc/Login/Logout.antt =====
-- Where a logout sends the browser, and that it ends the session there.
use Prim.Native.String.{◌++◌ as append}
use zigbee_control.Prelude.{
  ◌≡◌, refl, ap, sym, subst, inl, inr, ℕ, String, true, Option, none, some, [], truthy, Bool-cases,
}
use zigbee_control.Prelude.Results.{Result, ok, err, ok-injective, Result-cases}
use zigbee_control.Settings.{Settings}
use zigbee_control.Auth.Cookies.{clear_auth_cookies}
use zigbee_control.Oidc.{OidcClientService, OidcEndpoints, Form, endpoints_of, get_or}
use zigbee_control.Oidc.State.{Url, validate_redirect_url}
use zigbee_control.Oidc.Login.{
  Redirect, cookie_settings, logout, logout_location, logout_params, provider_logout,
}

module _ (urlparse : String → Result String Url) (urlencode : Form → String) where
  -- The redirect URL itself, or, with OIDC enabled, the provider's endpoint with the URL in its
  -- query.
  pub data Destination (client : OidcClientService) (config : Settings) (url : String)
      (id_token : Option String) : String → Type 0 where
    direct : Destination client config url id_token url
    provider :
        (endpoints : OidcEndpoints) (endpoint : String)
        → config.oidc_enabled ≡ true
        → endpoints_of client ≡ ok endpoints
        → endpoints.end_session_endpoint ≡ some endpoint
        → Destination client config url id_token (
            append endpoint
              (append "?" (urlencode (logout_params urlparse urlencode config url id_token))))

  provider-Destination :
      (client : OidcClientService) (config : Settings) (url : String) (id_token : Option String)
      (endpoints : OidcEndpoints) (endpoint : Option String)
      → config.oidc_enabled ≡ true
      → endpoints_of client ≡ ok endpoints
      → endpoints.end_session_endpoint ≡ endpoint
      → Destination client config url id_token
          (provider_logout urlparse urlencode config url id_token endpoint)
  provider-Destination client config url id_token endpoints none on known e = direct
  provider-Destination client config url id_token endpoints (some endpoint) on known e =
      elim (Bool-cases (truthy endpoint)) [
        | inl given ↦ rw given (provider endpoints endpoint on known e)
        | inr empty ↦ rw empty direct
      ]

  location-Destination :
      (client : OidcClientService) (config : Settings) (url : String) (id_token : Option String)
      (known : Result String OidcEndpoints)
      → endpoints_of client ≡ known
      → Destination client config url id_token
          (logout_location urlparse urlencode known config url id_token)
  location-Destination client config url id_token (err message) e = direct
  location-Destination client config url id_token (ok endpoints) e =
      elim (Bool-cases config.oidc_enabled) [
        | inl on ↦ simp on (provider-Destination client config url id_token endpoints _ on e refl)
        | inr off ↦ simp off direct
      ]

  -- A logout answers only if its redirect URL, or `/` where none is given, passed the check. It
  -- sends the browser to that URL or, with OIDC enabled, to the provider's endpoint with the URL in
  -- its query, and clears the three cookies.
  pub logout-IsChecked :
      (expiry : String → Option ℕ) (client : OidcClientService) (config : Settings)
      (redirect id_token : Option String) (answer : Redirect)
      → logout urlparse urlencode expiry client config redirect id_token ≡ ok answer
      → let url = get_or redirect "/" in
        (validate_redirect_url urlparse url config.baseurl ≡ ok tt)
        × Destination client config url id_token answer.location
        × (answer.cookies ≡ clear_auth_cookies (cookie_settings config) expiry [])
  unfolding logout clear_auth_cookies
  logout-IsChecked expiry client config redirect id_token answer h =
      let url = get_or redirect "/" in
      elim (Result-cases (validate_redirect_url urlparse url config.baseurl)) [
        | inr (e, failed) ↦ absurd (cc (simp failed at h))
        | inl (u, checked) ↦
            let same = ok-injective refl (simp checked at h) in
            (
              checked,
              subst (Destination client config url id_token) (ap (λ r. r.location) same)
                  (location-Destination client config url id_token (endpoints_of client) refl),
              sym (ap (λ r. r.cookies) same),
            )
      ]
