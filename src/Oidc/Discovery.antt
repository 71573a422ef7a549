-- ===== src/Oidc/Discovery.antt =====
-- The reading of the provider's discovery document: `_discover_endpoints` and `__init__` of
-- app/services/oidc_client_service.py with their retries, and `_discover_jwks_uri` with its caller in
-- `__init__` of app/services/auth_service.py, which makes one attempt.
pub mod Retry
pub mod Startup
use Prim.Native.String.{String, ◌++◌ as append}
use zigbee_control.Prelude.{
  ℕ, zero, suc, Bool, true, false, not, ◌&&◌, ◌||◌, Option, none, some, if◌then◌else◌, truthy_opt,
}
use zigbee_control.Prelude.Results.{Result, ok, err, ◌>>=◌}
use zigbee_control.Settings.{Settings}
use zigbee_control.Errors.{Exception, other_exception, authentication_exception}
use zigbee_control.Oidc.{OidcEndpoints, OidcClientService, get_or}

-- The JSON of a discovery document, as far as it is read.
pub record DiscoveryDocument : Type 0 where
  pub authorization_endpoint : Option String
  pub token_endpoint : Option String
  pub jwks_uri : Option String
  pub end_session_endpoint : Option String

-- What a GET of the document ends in: an `HTTPError`, JSON that is malformed (a `ValueError`),
-- another exception, or the document.
pub data DiscoveryAnswer : Type 0 where
  http_error : (message : String) → DiscoveryAnswer
  malformed : (message : String) → DiscoveryAnswer
  unusable : (message : String) → DiscoveryAnswer
  document : DiscoveryDocument → DiscoveryAnswer

-- The outcome of one attempt: the exceptions that are caught lead to a further attempt.
pub data Attempt : Type 0 where
  found : OidcEndpoints → Attempt
  caught : (message : String) → Attempt
  uncaught : (message : String) → Attempt

abbrev pub non_empty : Option String → Option String
non_empty s = if truthy_opt s then s else none

abbrev pub endpoints_in : DiscoveryDocument → Attempt
endpoints_in d =
    if not (truthy_opt d.authorization_endpoint)
      || not (truthy_opt d.token_endpoint)
      || not (truthy_opt d.jwks_uri)
    then caught "OIDC discovery document missing required endpoints"
    else found (record {
      authorization_endpoint = get_or d.authorization_endpoint "";
      token_endpoint = get_or d.token_endpoint "";
      end_session_endpoint = non_empty d.end_session_endpoint;
      jwks_uri = get_or d.jwks_uri "";
    })

-- The body of the loop.
unfoldable pub attempt : DiscoveryAnswer → Attempt
unfolding get_or
attempt (http_error message) = caught message
attempt (malformed message) = caught message
attempt (unusable message) = uncaught message
attempt (document d) = endpoints_in d

abbrev pub discovery_failed : String → String
discovery_failed message = append "Failed to discover OIDC endpoints after 3 attempts: " message

-- One pass of the loop, where `further` attempts may follow and `rest` is what they lead to.
abbrev pub discover_step :
    (further : ℕ) → Attempt → (rest : Result String OidcEndpoints) → Result String OidcEndpoints
discover_step further (found endpoints) rest = ok endpoints
discover_step further (uncaught message) rest = err message
discover_step zero (caught message) rest = err (discovery_failed message)
discover_step (suc further) (caught message) rest = rest

-- How many requests the loop makes.
abbrev pub count_step : Attempt → (rest : ℕ) → ℕ
count_step (caught message) rest = suc rest
count_step _ rest = 1

module _ (answers : (number : ℕ) → DiscoveryAnswer) where
  -- The loop from attempt `number` on; the provider may answer each request differently.
  unfoldable pub discover_from : (further number : ℕ) → Result String OidcEndpoints
  unfolding attempt
  discover_from zero number = discover_step zero (attempt (answers number)) (err "")
  discover_from (suc further) number =
      discover_step (suc further) (attempt (answers number)) (discover_from further (suc number))

  unfoldable pub requests_from : (further number : ℕ) → ℕ
  unfolding attempt
  requests_from zero number = 1
  requests_from (suc further) number =
      count_step (attempt (answers number)) (requests_from further (suc number))

  -- `max_retries` is 3: two attempts may follow the first one.
  unfoldable pub discover_endpoints : Result String OidcEndpoints
  unfolding discover_from
  discover_endpoints = discover_from 2 0

  -- `OidcClientService.__init__`
  unfoldable pub start_client : Settings → Result String OidcClientService
  start_client config =
      if config.oidc_enabled
      then (discover_endpoints >>= λ endpoints.
          ok (record { config = config; endpoints = some endpoints }))
      else ok (record { config = config; endpoints = none })

abbrev pub jwks_in : Option String → Result Exception String
jwks_in none = err (authentication_exception "JWKS URI not found in OIDC discovery document")
jwks_in (some uri) =
    if truthy_opt (some uri)
    then ok uri
    else err (authentication_exception "JWKS URI not found in OIDC discovery document")

unfoldable pub discover_jwks_uri : DiscoveryAnswer → Result Exception String
discover_jwks_uri (http_error message) =
    err (authentication_exception (append "Failed to discover JWKS endpoint: " message))
discover_jwks_uri (malformed message) = err (other_exception message)
discover_jwks_uri (unusable message) = err (other_exception message)
discover_jwks_uri (document d) = jwks_in d.jwks_uri

-- The part of `AuthService.__init__` that follows the roles: the key endpoint, where OIDC is enabled.
unfoldable pub start_keys : Settings → DiscoveryAnswer → Result Exception (Option String)
start_keys config answer =
    if not config.oidc_enabled
    then ok none
    else if not (truthy_opt config.oidc_issuer_url)
    then err (other_exception "OIDC_ISSUER_URL is required when OIDC_ENABLED=True")
    else if not (truthy_opt config.oidc_client_id)
    then err (other_exception "OIDC_CLIENT_ID is required when OIDC_ENABLED=True")
    else (discover_jwks_uri answer >>= λ uri. ok (some uri))
