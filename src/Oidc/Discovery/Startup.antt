-- ===== src/Oidc/Discovery/Startup.antt =====
-- The two services that are built from checked settings.
use zigbee_control.Prelude.{
  ◌≡◌, refl, ap, ◌∙◌, if◌then◌else◌, ◌⊎◌, inl, inr, String, Bool, true, false, not, ◌||◌, Option,
  none, some, arith, truthy_opt,
}
use zigbee_control.Prelude.Results.{ok}
use zigbee_control.Settings.{Settings, validate_production_config}
use zigbee_control.Settings.Loading.{validate_production_config_iff}
use zigbee_control.Oidc.{OidcEndpoints, get_or}
use zigbee_control.Oidc.Discovery.{
  DiscoveryDocument, document, found, Attempt, caught, attempt, jwks_in, start_client, start_keys,
  discover_jwks_uri,
}
use zigbee_control.Oidc.Discovery.Retry.{here, discover_endpoints_exact}

abbrev found_jwks : Attempt → String
found_jwks (found e) = e.jwks_uri
found_jwks _ = ""

found_unless :
    (missing : Bool) (message : String) (f e : OidcEndpoints)
    → (if missing then caught message else found f) ≡ found e
    → (missing ≡ false) × (f.jwks_uri ≡ e.jwks_uri)
found_unless true message f e h = cc
found_unless false message f e h = (refl, ap found_jwks h)

jwks_in_given :
    (o : Option String) (a t : Bool)
    → (not a || not t || not (truthy_opt o)) ≡ false
    → jwks_in o ≡ ok (get_or o "")
unfolding get_or
jwks_in_given none a t h = absurd (ground arith)
jwks_in_given (some uri) a t h = ground arith

-- The document in which the client finds its endpoints has the same key endpoint for the other
-- service.
attempt-jwks :
    (d : DiscoveryDocument) (e : OidcEndpoints)
    → attempt (document d) ≡ found e
    → discover_jwks_uri (document d) ≡ ok e.jwks_uri
unfolding attempt discover_jwks_uri get_or
attempt-jwks d e h =
    let (given, same) = found_unless _ _ _ e h in jwks_in_given d.jwks_uri _ _ given ∙ ap ok same

start_keys_given :
    (config : Settings) (d : DiscoveryDocument) (e : OidcEndpoints)
    → config.oidc_enabled ≡ true
    → (config.oidc_enabled ≡ false
        ⊎ ((truthy_opt config.oidc_issuer_url ≡ true)
            × (truthy_opt config.oidc_client_id ≡ true)
            × (truthy_opt config.oidc_client_secret ≡ true)))
    → discover_jwks_uri (document d) ≡ ok e.jwks_uri
    → start_keys config (document d) ≡ ok (some e.jwks_uri)
unfolding start_keys
start_keys_given config d e on (inl off) j = absurd (cc)
start_keys_given config d e on (inr (issuer, client, secret)) j = simp (on, issuer, client, j) refl

-- With settings that pass the check before the start and OIDC enabled, and a provider that answers
-- each request with a document that has every endpoint, both services start: the client has the
-- endpoints of the document, and the service that validates tokens the same key endpoint.
pub startable_services :
    (config : Settings) (d : DiscoveryDocument) (e : OidcEndpoints)
    → validate_production_config config ≡ ok tt
    → config.oidc_enabled ≡ true
    → attempt (document d) ≡ found e
    → (start_client (λ n. document d) config ≡ ok (record { config = config; endpoints = some e }))
      × (start_keys config (document d) ≡ ok (some e.jwks_uri))
unfolding start_client
startable_services config d e valid on h =
    let (_, _, exact) = discover_endpoints_exact (λ n. document d) in
    let found_now = (exact e).1 (here h) in
    let (_, given) = (validate_production_config_iff config).0 valid in
    (simp (on, found_now) refl, start_keys_given config d e on given (attempt-jwks d e h))
