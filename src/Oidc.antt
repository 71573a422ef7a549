-- ===== src/Oidc.antt =====
-- app/services/oidc_client_service.py: the requests to the OIDC provider. `httpx`, `urlencode`, the
-- base64 text of a SHA-256 digest and the random texts are parameters, and so are the answers as
-- far as the program reads them: a provider's texts are texts or `null`.
pub mod Discovery
pub mod State
pub mod Login
pub mod Renewal
mod Tests
use Prim.Native.String.{String, ◌++◌ as append}
use zigbee_control.Prelude.{
  Bool, true, false, Option, none, some, List, [], ◌∷◌, if◌then◌else◌, truthy_opt,
}
use zigbee_control.Prelude.Int.{ℤ, pos}
use zigbee_control.Prelude.Results.{Result, ok, err, ◌>>=◌}
use zigbee_control.Prelude.Texts.{rstrip_char}
use zigbee_control.Settings.{Settings}
use zigbee_control.Errors.{Exception, other_exception, authentication_exception}
use zigbee_control.Auth.Tokens.{AuthenticationException}
use zigbee_control.Auth.Access.{PendingTokenRefresh}

pub record OidcEndpoints : Type 0 where
  pub authorization_endpoint : String
  pub token_endpoint : String
  pub end_session_endpoint : Option String
  pub jwks_uri : String

pub record AuthState : Type 0 where
  pub code_verifier : String
  pub redirect_url : String
  pub nonce : String

pub record TokenResponse : Type 0 where
  pub access_token : String
  pub id_token : Option String
  pub refresh_token : Option String
  pub token_type : Option String
  pub expires_in : ℤ

-- The JSON of a token response. A field that `get` reads with a default is `none` where it is
-- missing; for `expires_in` the value is what `int` makes of it, `none` where `int` raises.
pub record TokenData : Type 0 where
  pub access_token : Option String
  pub id_token : Option String
  pub refresh_token : Option (Option String)
  pub token_type : Option (Option String)
  pub expires_in : Option (Option ℤ)

-- The JSON of an error answer.
pub record ErrorData : Type 0 where
  pub error_description : Option String
  pub error : Option String

-- What a POST to the token endpoint ends in: an `HTTPError` without a response, one with a response
-- (whose JSON is an object, or nothing that has a `get`), another exception, or the tokens.
pub data TokenAnswer : Type 0 where
  transport_error : (message : String) → TokenAnswer
  status_error : (message : String) → Option ErrorData → TokenAnswer
  raises : (message : String) → TokenAnswer
  answers : TokenData → TokenAnswer

unfoldable pub get_or {ℓ} : {A : Type ℓ} → Option A → A → A
get_or none default = default
get_or (some a) default = a

abbrev pub Form : Type 0
Form = List (String × Option String)

-- The service: its settings, and the endpoints where they were discovered.
pub record OidcClientService : Type 0 where
  pub config : Settings
  pub endpoints : Option OidcEndpoints

abbrev pub given_endpoints : Option OidcEndpoints → Result String OidcEndpoints
given_endpoints none =
    err "OIDC endpoints not available. Ensure OIDC_ENABLED=True and discovery succeeded."
given_endpoints (some endpoints) = ok endpoints

-- The property `endpoints`.
unfoldable pub endpoints_of : OidcClientService → Result String OidcEndpoints
endpoints_of client = given_endpoints client.endpoints

unfoldable pub create_auth_state : (code_verifier nonce redirect_url : String) → AuthState
create_auth_state code_verifier nonce redirect_url = record {
  code_verifier = code_verifier;
  redirect_url = redirect_url;
  nonce = nonce;
}

abbrev pub redirect_uri : Settings → String
redirect_uri config = append config.baseurl "/api/auth/callback"

module _ (sha256_base64 : String → String) (urlencode : Form → String) where
  unfoldable pub generate_pkce_challenge : String → String
  unfolding rstrip_char
  generate_pkce_challenge code_verifier = rstrip_char 61 (sha256_base64 code_verifier)

  abbrev pub authorization_params : Settings → AuthState → (state_value : String) → Form
  authorization_params config auth_state state_value =
      ("client_id", config.oidc_client_id)
      ∷ ("response_type", some "code")
      ∷ ("redirect_uri", some (redirect_uri config))
      ∷ ("scope", some config.oidc_scopes)
      ∷ ("state", some state_value)
      ∷ ("code_challenge", some (generate_pkce_challenge auth_state.code_verifier))
      ∷ ("code_challenge_method", some "S256")
      ∷ []

  abbrev pub authorization_url :
      Settings → AuthState → (state_value : String) → OidcEndpoints → String
  authorization_url config auth_state state_value endpoints =
      append endpoints.authorization_endpoint
        (append "?" (urlencode (authorization_params config auth_state state_value)))

  unfoldable pub build_authorization_url :
      OidcClientService → AuthState → (state_value : String) → Result String String
  build_authorization_url client auth_state state_value = do
    endpoints ← endpoints_of client
    ok (authorization_url client.config auth_state state_value endpoints)

  -- The random texts are those of `create_auth_state`.
  unfoldable pub generate_authorization_url :
      OidcClientService
      → (code_verifier nonce redirect_url : String) → Result String (String × AuthState)
  unfolding create_auth_state
  generate_authorization_url client code_verifier nonce redirect_url =
      let auth_state = create_auth_state code_verifier nonce redirect_url in
      do url ← build_authorization_url client auth_state auth_state.nonce; ok (url, auth_state)

-- `int(token_data.get("expires_in", 300))`
abbrev pub lifetime : Option (Option ℤ) → Result Exception ℤ
lifetime none = ok (pos 300)
lifetime (some none) = err (other_exception "expires_in is no integer")
lifetime (some (some seconds)) = ok seconds

-- The part of both token requests that reads a successful answer; without a `refresh_token` in the
-- answer it is `kept`.
abbrev pub token_response :
    (kept : Option String) → TokenData → Option String → Result Exception TokenResponse
token_response kept received none =
    err (authentication_exception "Token response missing access_token")
token_response kept received (some access_token) =
    if truthy_opt (some access_token)
    then (lifetime received.expires_in >>= λ expires_in. ok (record {
      access_token = access_token;
      id_token = received.id_token;
      refresh_token = get_or received.refresh_token kept;
      token_type = get_or received.token_type (some "Bearer");
      expires_in = expires_in;
    }))
    else err (authentication_exception "Token response missing access_token")

abbrev pub error_detail : (message : String) → Option ErrorData → String
error_detail message none = message
error_detail message (some received) =
    get_or received.error_description (get_or received.error message)

abbrev pub exchange_failed : String → Exception
exchange_failed detail =
    authentication_exception (append "Failed to exchange authorization code: " detail)

abbrev pub refresh_failed : String → Exception
refresh_failed detail = authentication_exception (append "Failed to refresh access token: " detail)

abbrev pub exchanged : TokenAnswer → Result Exception TokenResponse
exchanged (transport_error message) = err (exchange_failed "Unknown error")
exchanged (status_error message received) = err (exchange_failed (error_detail message received))
exchanged (raises message) = err (other_exception message)
exchanged (answers received) = token_response none received received.access_token

abbrev pub renewed : (refresh_token : String) → TokenAnswer → Result Exception TokenResponse
renewed refresh_token (transport_error message) = err (refresh_failed message)
renewed refresh_token (status_error message received) = err (refresh_failed message)
renewed refresh_token (raises message) = err (other_exception message)
renewed refresh_token (answers received) =
    token_response (some refresh_token) received received.access_token

abbrev pub exchange_form : Settings → (code code_verifier : String) → Form
exchange_form config code code_verifier =
    ("grant_type", some "authorization_code")
    ∷ ("code", some code)
    ∷ ("redirect_uri", some (redirect_uri config))
    ∷ ("client_id", config.oidc_client_id)
    ∷ ("client_secret", config.oidc_client_secret)
    ∷ ("code_verifier", some code_verifier)
    ∷ []

abbrev pub refresh_form : Settings → (refresh_token : String) → Form
refresh_form config refresh_token =
    ("grant_type", some "refresh_token")
    ∷ ("refresh_token", some refresh_token)
    ∷ ("client_id", config.oidc_client_id)
    ∷ ("client_secret", config.oidc_client_secret)
    ∷ []

module _ (post : (url : String) → Form → TokenAnswer) where
  -- Without endpoints the `ValueError` of the property goes through.
  abbrev pub asked :
      Result String OidcEndpoints
      → Form
      → (TokenAnswer → Result Exception TokenResponse)
      → Result Exception TokenResponse
  asked (err message) form read = err (other_exception message)
  asked (ok endpoints) form read = read (post endpoints.token_endpoint form)

  unfoldable pub exchange_code_for_tokens :
      OidcClientService → (code code_verifier : String) → Result Exception TokenResponse
  unfolding get_or
  exchange_code_for_tokens client code code_verifier =
      asked (endpoints_of client) (exchange_form client.config code code_verifier) exchanged

  unfoldable pub refresh_access_token :
      OidcClientService → (refresh_token : String) → Result Exception TokenResponse
  unfolding get_or
  refresh_access_token client refresh_token =
      asked (endpoints_of client) (refresh_form client.config refresh_token) (renewed refresh_token)
