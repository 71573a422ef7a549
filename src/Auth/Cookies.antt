-- ===== src/Auth/Cookies.antt =====
-- `get_cookie_kwargs` of app/utils/auth.py, and `after_request_set_cookies` and
-- `_clear_auth_cookies` of app/api/oidc_hooks.py. `expiry` is `get_token_expiry_seconds`, which
-- reads a token's `exp` with PyJWT.
pub mod Clearing
use zigbee_control.Prelude.{
  ℕ, String, Bool, true, Option, none, some, List, [], ◌∷◌, ◌++◌, if◌then◌else◌, truthy_opt,
}
use zigbee_control.Prelude.Int.{ℤ, pos}
use zigbee_control.Auth.Access.{G, PendingTokenRefresh}

pub record CookieKwargs : Type 0 where
  pub httponly : Bool
  pub secure : Bool
  pub samesite : String
  pub partitioned : Bool

pub record CookieSettings : Type 0 where
  pub oidc_cookie_name : String
  pub oidc_refresh_cookie_name : String
  pub oidc_cookie_secure : Bool
  pub oidc_cookie_samesite : String
  pub oidc_cookie_partitioned : Bool

unfoldable pub get_cookie_kwargs : CookieSettings → CookieKwargs
get_cookie_kwargs config = record {
  httponly = true;
  secure = config.oidc_cookie_secure;
  samesite = config.oidc_cookie_samesite;
  partitioned = config.oidc_cookie_partitioned;
}

-- One `response.set_cookie`.
pub record SetCookie : Type 0 where
  pub name : String
  pub value : String
  pub max_age : ℤ
  pub kwargs : CookieKwargs

module _ (config : CookieSettings) (expiry : String → Option ℕ) where
  unfoldable pub set_cookie : (name value : String) → (max_age : ℤ) → SetCookie
  unfolding get_cookie_kwargs
  set_cookie name value max_age = record {
    name = name;
    value = value;
    max_age = max_age;
    kwargs = get_cookie_kwargs config;
  }

  unfoldable pub clear_auth_cookies : List SetCookie → List SetCookie
  clear_auth_cookies response =
      response
      ++ set_cookie config.oidc_cookie_name "" (pos 0)
        ∷ set_cookie config.oidc_refresh_cookie_name "" (pos 0)
        ∷ set_cookie "id_token" "" (pos 0)
        ∷ []

  abbrev pub set_refreshed : PendingTokenRefresh → Option String → List SetCookie → List SetCookie
  set_refreshed pending none response =
      response
      ++ set_cookie config.oidc_cookie_name pending.access_token pending.access_token_expires_in
        ∷ []
  set_refreshed pending (some token) response =
      if truthy_opt (some token)
      then elim (expiry token) [
        | none ↦ clear_auth_cookies response
        | some seconds ↦
            response
            ++ set_cookie config.oidc_cookie_name pending.access_token
                pending.access_token_expires_in
              ∷ set_cookie config.oidc_refresh_cookie_name token (pos seconds)
              ∷ []
      ]
      else response
        ++ set_cookie config.oidc_cookie_name pending.access_token pending.access_token_expires_in
          ∷ []

  abbrev pub set_pending : Option PendingTokenRefresh → List SetCookie → List SetCookie
  set_pending none response = response
  set_pending (some pending) response = set_refreshed pending pending.refresh_token response

  unfoldable pub after_request_set_cookies : G → List SetCookie → List SetCookie
  after_request_set_cookies g response =
      if g.clear_auth_cookies
      then clear_auth_cookies response
      else set_pending g.pending_token_refresh response
