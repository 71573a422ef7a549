-- ===== src/Oidc/Tests.antt =====
-- The OIDC client and the login at a concrete provider.
use zigbee_control.Prelude.{
  ◌≡◌, refl, sym, ◌↔◌, ◌≤◌, ℕ, String, true, Option, none, some, [], ◌∷◌, ◌++◌, inl, ◌==◌,
  string_eq, nat_eq, if◌then◌else◌,
}
use mathlib.Core.Option.{some-injective}
use zigbee_control.Prelude.Int.{pos}
use zigbee_control.Prelude.Results.{Result, ok, ◌>>=◌}
use zigbee_control.Dict.{Dict}
use zigbee_control.Settings.{Settings, load, default_environment}
use zigbee_control.Auth.Roles.{AuthService, tiers}
use zigbee_control.Auth.Tokens.{AuthenticationException, AuthContext, Request}
use zigbee_control.Auth.Access.{PendingTokenRefresh, fresh, authenticate_request}
use zigbee_control.Auth.Cookies.{
  CookieSettings, set_cookie, clear_auth_cookies, after_request_set_cookies,
}
use zigbee_control.Oidc.{
  OidcClientService, OidcEndpoints, AuthState, Form, TokenAnswer, TokenData, TokenResponse, answers,
  create_auth_state, exchange_code_for_tokens, build_authorization_url, get_or,
}
use zigbee_control.Oidc.State.{
  Loaded, loaded, Url, state_data, derive_fernet_key, serialize_auth_state, deserialize_auth_state,
  validate_redirect_url,
}
use zigbee_control.Oidc.Discovery.{
  DiscoveryDocument, DiscoveryAnswer, http_error, document, discover_endpoints, requests_from,
  start_client, start_keys,
}
use zigbee_control.Oidc.Discovery.Retry.{FirstFound, discover_endpoints_exact}
use zigbee_control.Oidc.Discovery.Startup.{startable_services}
use zigbee_control.Oidc.Login.{Redirect, cookie_settings, login, callback, finish_login}
use zigbee_control.Oidc.Login.RoundTrip.{ComesBack, callback_of_login}
use zigbee_control.Oidc.Login.Redirects.{login-IsChecked}
use zigbee_control.Oidc.Login.Completion.{IsCompleted, callback-IsChecked}
use zigbee_control.Oidc.Renewal.{refresh-Renews}

abbrev config : Settings
config = load (record default_environment {
  secret_key = "k";
  oidc_enabled = true;
  oidc_issuer_url = some "https://id";
  oidc_client_id = some "zigbee";
  oidc_client_secret = some "c";
})

abbrev found_document : DiscoveryDocument
found_document = record {
  authorization_endpoint = some "https://id/auth";
  token_endpoint = some "https://id/token";
  jwks_uri = some "https://id/keys";
  end_session_endpoint = none;
}

abbrev endpoints : OidcEndpoints
endpoints = record {
  authorization_endpoint = "https://id/auth";
  token_endpoint = "https://id/token";
  end_session_endpoint = none;
  jwks_uri = "https://id/keys";
}

-- The first answer is an error.
abbrev provider : ℕ → DiscoveryAnswer
provider number = if number == 0 then http_error "503" else document found_document

provider_found : discover_endpoints provider ≡ ok endpoints
unfolding discover_endpoints
provider_found = refl

discover_endpoints_exact_example :
    (1 ≤ requests_from provider 2 0)
    × (requests_from provider 2 0 ≤ 3)
    × ((e : OidcEndpoints) → (discover_endpoints provider ≡ ok e) ↔ FirstFound provider e 2 0)
discover_endpoints_exact_example = discover_endpoints_exact provider

startable_services_example :
    (start_client (λ n. document found_document) config
      ≡ ok (record { config = config; endpoints = some endpoints }))
    × (start_keys config (document found_document) ≡ ok (some "https://id/keys"))
unfolding zigbee_control.Settings.validate_production_config load
    zigbee_control.Oidc.Discovery.attempt
startable_services_example = startable_services config found_document endpoints refl refl refl

abbrev client : OidcClientService
client = record { config = config; endpoints = some endpoints }

abbrev digest : String → String
digest s = "digest"

abbrev encrypt : String → String → String
encrypt key s = "token"

abbrev decrypt : String → ℕ → String → Option String
decrypt key age token = some "state"

abbrev dumps : Dict String String → String
dumps d = "state"

abbrev state : AuthState
state = create_auth_state "verifier" "nonce" "/tabs"

abbrev loads : String → Loaded
loads s = loaded (state_data state)

abbrev validate : String → Result AuthenticationException AuthContext
validate token = ok (record { subject = "alice"; email = none; name = none; roles = [] })

abbrev expiry : String → Option ℕ
expiry token = some 900

abbrev received : TokenData
received = record {
  access_token = some "a1";
  id_token = none;
  refresh_token = none;
  token_type = none;
  expires_in = some (some (pos 60));
}

abbrev post : String → Form → TokenAnswer
post url form = answers received

abbrev urlparse : String → Result String Url
urlparse s = ok (record { scheme = ""; netloc = "" })

abbrev urlencode : Form → String
urlencode form = "q"

abbrev back :
    ComesBack encrypt decrypt dumps loads (derive_fernet_key digest config.secret_key) state
back = record { decrypts = refl; ascii = refl; filled = refl; loads_dumps = refl }

callback_of_login_example :
    callback validate expiry digest decrypt loads post client config
      (some "code")
      (some (serialize_auth_state digest encrypt dumps state config.secret_key))
    ≡ (exchange_code_for_tokens post client "code" "verifier"
        >>= finish_login validate expiry config state)
unfolding load
callback_of_login_example =
    callback_of_login validate expiry digest encrypt decrypt dumps loads post client config
      "verifier" "nonce" "/tabs" "code" refl refl back

abbrev to_provider : Redirect
to_provider = record { location = "https://id/auth?q"; cookies = [] }

login-IsChecked_example :
    (redirect_url : String) × (some "/tabs" ≡ some redirect_url)
    × (config.oidc_enabled ≡ true)
    × (validate_redirect_url urlparse redirect_url config.baseurl ≡ ok tt)
    × (let s = create_auth_state "verifier" "nonce" redirect_url in
        build_authorization_url digest urlencode client s
          (serialize_auth_state digest encrypt dumps s config.secret_key)
        ≡ ok to_provider.location)
unfolding login load validate_redirect_url build_authorization_url zigbee_control.Oidc.endpoints_of
login-IsChecked_example =
    login-IsChecked urlparse urlencode digest encrypt dumps client config "verifier" "nonce"
      (some "/tabs") to_provider refl

abbrev to_tabs : Redirect
to_tabs = record {
  location = "/tabs";
  cookies = set_cookie (cookie_settings config) expiry "access_token" "a1" (pos 60) ∷ [];
}

callback-IsChecked_example :
    IsCompleted urlparse urlencode validate expiry digest encrypt decrypt dumps loads post config
      client
      (some "code")
      to_tabs
unfolding validate_redirect_url login build_authorization_url callback load deserialize_auth_state
    state_data exchange_code_for_tokens zigbee_control.Oidc.endpoints_of finish_login
    create_auth_state
callback-IsChecked_example =
    callback-IsChecked urlparse urlencode validate expiry digest encrypt decrypt dumps loads post
      config client (some "code") (some "token") to_tabs
      (λ token plaintext h. (
        client,
        "verifier",
        "nonce",
        "/tabs",
        to_provider,
        refl,
        (sym (some-injective _ _ h), refl),
      ))
      refl

abbrev to_root : Redirect
to_root = record { location = "/"; cookies = clear_auth_cookies (cookie_settings config) expiry [] }

abbrev cookies : CookieSettings
cookies = cookie_settings config

abbrev service : AuthService
service = tiers none none none []

abbrev stale : Request
stale = record {
  method = "GET";
  access_cookie = none;
  refresh_cookie = some "r1";
  authorization = [];
}

abbrev exchange : String → Result AuthenticationException PendingTokenRefresh
exchange token =
    ok
      (record { access_token = "a1"; refresh_token = some token; access_token_expires_in = pos 60 })

refresh-Renews_example :
    let out = authenticate_request validate service (some exchange) stale none fresh in
    (out.0 ≡ ok tt)
    × (out.1.auth_context
        ≡ some (record { subject = "alice"; email = none; name = none; roles = [] }))
    × (after_request_set_cookies cookies expiry out.1 []
        ≡ []
          ++ set_cookie cookies expiry "access_token" "a1" (pos 60)
            ∷ set_cookie cookies expiry "refresh_token" "r1" (pos 900)
            ∷ [])
unfolding zigbee_control.Oidc.refresh_access_token zigbee_control.Oidc.endpoints_of
    zigbee_control.Auth.Tokens.extract_token_from_request
    zigbee_control.Auth.Access.check_authorization zigbee_control.Auth.Roles.resolve_required_role
    zigbee_control.Auth.Roles.by_method zigbee_control.Auth.Roles.same_letters tiers load
refresh-Renews_example =
    refresh-Renews post client validate service exchange cookies expiry stale none fresh []
      endpoints "r1" "a1" (pos 60) 900 _ refl
      (record {
        received = received;
        known = refl;
        answered = refl;
        granted = refl;
        filled = refl;
        lifetime = refl;
        kept = refl;
      })
      (inl refl) refl refl refl refl refl refl
