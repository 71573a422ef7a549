-- ===== src/Settings/Loading.antt =====
-- What `Settings.load` and `validate_production_config` of app/config.py guarantee to the services
-- that are built from the settings.
use Prim.Native.Char.{Char, code}
use zigbee_control.Prelude.Int.{pos}
use zigbee_control.Prelude.{
  ◌≡◌, refl, ◌↔◌, ◌⊎◌, inl, inr, ℕ, String, Bool, true, false, not, ◌&&◌, none, arith, List, [],
  ◌∷◌, ◌++◌, Bool-cases, truthy_opt, ◌==◌, string_eq, if◌then◌else◌, nat_eq,
}
use zigbee_control.Prelude.Results.{ok}
use zigbee_control.Prelude.Texts.{rstrip_char, ends_with_char, starts_with}
use zigbee_control.Settings.{
  Environment, Settings, load, config_errors, validate_production_config, is_production,
  default_secret_key, slash, error_if,
}

-- What a service that starts with these settings relies on.
abbrev pub IsStartable : Settings → Type 0
IsStartable config =
    ((is_production config && config.secret_key == default_secret_key) ≡ false)
    × (config.oidc_enabled ≡ false
        ⊎ ((truthy_opt config.oidc_issuer_url ≡ true)
            × (truthy_opt config.oidc_client_id ≡ true)
            × (truthy_opt config.oidc_client_secret ≡ true)))

errors_iff :
    (insecure enabled issuer client secret : Bool) (s t u v : String)
    → ((error_if insecure s
          ++ (if enabled
              then error_if (not issuer) t ++ error_if (not client) u ++ error_if (not secret) v
              else []))
        ≡ [])
      ↔ ((insecure ≡ false)
          × (enabled ≡ false ⊎ ((issuer ≡ true) × (client ≡ true) × (secret ≡ true))))
errors_iff insecure enabled issuer client secret s t u v = (λ h. ground arith, λ h. ground arith)

List-cases {ℓ} :
    {A : Type ℓ} (xs : List A) → (xs ≡ []) ⊎ ((x : A) × (rest : List A) × (xs ≡ x ∷ rest))
List-cases [] = inl refl
List-cases (x ∷ rest) = inr (x, rest, refl)

validate_iff_no_errors :
    (config : Settings) → (validate_production_config config ≡ ok tt) ↔ (config_errors config ≡ [])
unfolding validate_production_config
validate_iff_no_errors config = (
  λ h. elim (List-cases (config_errors config)) [
    | inl e ↦ e
    | inr (x, xs, e) ↦ absurd (cc (rw (e, validate_production_config) at h))
  ],
  λ e. rw (e, validate_production_config) refl,
)

ends_with-cons :
    (n : ℕ) (c : Char) (rest : String)
    → (code c == n && rest == "") ≡ false
    → ends_with_char n rest ≡ false
    → ends_with_char n (String.◌∷◌ c rest) ≡ false
ends_with-cons n c String.[] test h = ground arith
ends_with-cons n c (String.◌∷◌ d s) test h = h

ends-rstrip_char : (n : ℕ) (s : String) → ends_with_char n (rstrip_char n s) ≡ false
unfolding rstrip_char
ends-rstrip_char n String.[] = refl
ends-rstrip_char n (String.◌∷◌ c s) = elim (Bool-cases (code c == n && rstrip_char n s == "")) [
  | inl e ↦ rw (e, rstrip_char) refl
  | inr e ↦ rw (e, rstrip_char) (ends_with-cons n c (rstrip_char n s) e (ends-rstrip_char n s))
]

-- The check before the start succeeds exactly if the secret key is not the default one in
-- production and, with OIDC enabled, the issuer, the client id and the client secret are given.
pub validate_production_config_iff :
    (config : Settings) → (validate_production_config config ≡ ok tt) ↔ IsStartable config
unfolding config_errors
validate_production_config_iff config =
    let both =
      errors_iff (is_production config && config.secret_key == default_secret_key)
        config.oidc_enabled (truthy_opt config.oidc_issuer_url) (truthy_opt config.oidc_client_id)
        (truthy_opt config.oidc_client_secret) _ _ _ _ in
    (
      λ h. both.0 ((validate_iff_no_errors config).0 h),
      λ h. (validate_iff_no_errors config).1 (both.1 h),
    )

-- The base URL of loaded settings does not end in a slash; the heartbeat is 30 seconds in
-- production; an audience is set whenever a client id is; and a cookie is secure, unless the
-- environment says otherwise, exactly if the base URL is one of https.
pub load_resolves :
    (env : Environment)
    → (ends_with_char slash (load env).baseurl ≡ false)
      × ((env.flask_env == "production") ≡ true → (load env).sse_heartbeat_interval ≡ pos 30)
      × (truthy_opt env.oidc_client_id ≡ true → truthy_opt (load env).oidc_audience ≡ true)
      × (env.oidc_cookie_secure ≡ none
          → (load env).oidc_cookie_secure ≡ starts_with "https://" env.baseurl)
unfolding load
load_resolves env =
    (ends-rstrip_char slash env.baseurl, λ h. ground arith, λ h. ground arith, λ h. ground arith)
