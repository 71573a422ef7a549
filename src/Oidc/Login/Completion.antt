-- ===== src/Oidc/Login/Completion.antt =====
-- What the callback of a login has checked when it sends the browser back.
use zigbee_control.Prelude.{
  ◌≡◌, refl, ap, sym, subst, ◌∙◌, inl, inr, ℕ, String, true, Option, none, some, Bool-cases, All,
  string_eq,
}
use mathlib.Core.Option.{some-injective}
use zigbee_control.Prelude.Results.{Result, ok, ok-injective, Result-cases}
use zigbee_control.Dict.{Dict}
use zigbee_control.Settings.{Settings}
use zigbee_control.Auth.Tokens.{AuthenticationException, AuthContext}
use zigbee_control.Auth.Cookies.Clearing.{IsGuarded}
use zigbee_control.Oidc.{
  OidcClientService, AuthState, Form, TokenAnswer, TokenResponse, create_auth_state,
  exchange_code_for_tokens,
}
use zigbee_control.Oidc.State.{
  Loaded, loaded, Url, is_ascii, state_in, state_data, state_from, derive_fernet_key,
  deserialize_auth_state, validate_redirect_url,
}
use zigbee_control.Oidc.Login.{Redirect, cookie_settings, parameter, login, callback, finish_login}
use zigbee_control.Oidc.Login.RoundTrip.{state_from-state_data}
use zigbee_control.Oidc.Login.Redirects.{parameter-ok, login-IsChecked, finish_login-IsFinished}

module _ (urlparse : String → Result String Url) (urlencode : Form → String)
    (validate : String → Result AuthenticationException AuthContext) (expiry : String → Option ℕ)
    (sha256_base64 : String → String) (encrypt : (key plaintext : String) → String)
    (decrypt : (key : String) → (max_age : ℕ) → (token : String) → Option String)
    (dumps : Dict String String → String) (loads : String → Loaded)
    (post : (url : String) → Form → TokenAnswer) (config : Settings) where
  -- Fernet's authenticity: a token decrypts under the secret key only to a text that was encrypted
  -- under it, and only the endpoint `login` encrypts under it: the JSON of its state, in an answer that
  -- it gave. `loads` reads that JSON back.
  abbrev pub IsAuthentic : Type 0
  IsAuthentic =
      (token plaintext : String)
      → decrypt (derive_fernet_key sha256_base64 config.secret_key) 600 token ≡ some plaintext
      → (client : OidcClientService) × (code_verifier : String) × (nonce : String)
        × (redirect_url : String) × (sent : Redirect) × (login urlparse urlencode sha256_base64
              encrypt dumps client config code_verifier nonce (some redirect_url)
            ≡ ok sent)
        × (let s = create_auth_state code_verifier nonce redirect_url in
            (plaintext ≡ dumps (state_data s))
            × (loads (dumps (state_data s)) ≡ loaded (state_data s)))

  -- The redirect URL of a login that answered was checked.
  login-checked :
      (client : OidcClientService) (code_verifier nonce redirect_url : String) (sent : Redirect)
      → login urlparse urlencode sha256_base64 encrypt dumps client config code_verifier nonce
          (some redirect_url)
        ≡ ok sent
      → validate_redirect_url urlparse redirect_url config.baseurl ≡ ok tt
  login-checked client code_verifier nonce redirect_url sent h =
      let (checked_url, same, _, checked, _) =
        login-IsChecked urlparse urlencode sha256_base64 encrypt dumps client config code_verifier
          nonce (some redirect_url) sent h in
      subst (λ u. validate_redirect_url urlparse u config.baseurl ≡ ok tt)
        (sym (some-injective _ _ same)) checked

  state_in-IsChecked :
      (state : String) (s : AuthState) (plaintext : Option String)
      → IsAuthentic
      → decrypt (derive_fernet_key sha256_base64 config.secret_key) 600 state ≡ plaintext
      → state_in sha256_base64 decrypt loads plaintext ≡ ok s
      → validate_redirect_url urlparse s.redirect_url config.baseurl ≡ ok tt
  unfolding create_auth_state
  state_in-IsChecked state s none authentic d h = cc
  state_in-IsChecked state s (some plaintext) authentic d h =
      let (client, code_verifier, nonce, redirect_url, sent, answered, (text, back)) =
        authentic state plaintext d in
      let made = create_auth_state code_verifier nonce redirect_url in
      let read : state_from (loads plaintext) ≡ ok made =
        ap (λ p. state_from (loads p)) text ∙ ap state_from back ∙ state_from-state_data made in
      subst (λ r. validate_redirect_url urlparse r.redirect_url config.baseurl ≡ ok tt)
        (ok-injective read h) (login-checked client code_verifier nonce redirect_url sent answered)

  deserialize-IsChecked :
      (state : String) (s : AuthState)
      → IsAuthentic
      → deserialize_auth_state sha256_base64 decrypt loads state config.secret_key ≡ ok s
      → validate_redirect_url urlparse s.redirect_url config.baseurl ≡ ok tt
  unfolding deserialize_auth_state
  deserialize-IsChecked state s authentic h = elim (Bool-cases (is_ascii state)) [
    | inr e ↦ absurd (cc (rw e at h))
    | inl e ↦ state_in-IsChecked state s _ authentic refl (rw e at h)
  ]

  -- OIDC is on, the redirect URL passed the check, the provider gave tokens for the code, the access
  -- token is valid, and the cookies have the configured attributes.
  pub record IsCompleted (client : OidcClientService) (code_parameter : Option String)
      (answer : Redirect) : Type 0 where
    pub enabled : config.oidc_enabled ≡ true
    pub checked : validate_redirect_url urlparse answer.location config.baseurl ≡ ok tt
    pub code : String
    pub code_verifier : String
    pub tokens : TokenResponse
    pub context : AuthContext
    pub given : code_parameter ≡ some code
    pub exchanged : exchange_code_for_tokens post client code code_verifier ≡ ok tokens
    pub valid : validate tokens.access_token ≡ ok context
    pub safe : All (IsGuarded (cookie_settings config) expiry) answer.cookies

  completed :
      (client : OidcClientService) (code_parameter : Option String) (code token : String)
      (s : AuthState) (tokens : TokenResponse) (answer : Redirect)
      → config.oidc_enabled ≡ true
      → code_parameter ≡ some code
      → IsAuthentic
      → deserialize_auth_state sha256_base64 decrypt loads token config.secret_key ≡ ok s
      → exchange_code_for_tokens post client code s.code_verifier ≡ ok tokens
      → finish_login validate expiry config s tokens ≡ ok answer
      → IsCompleted client code_parameter answer
  completed client code_parameter code token s tokens answer on given authentic decrypted exchanged
        h =
      let done = finish_login-IsFinished validate expiry config s tokens answer h in
      record {
        enabled = on;
        checked =
            subst (λ l. validate_redirect_url urlparse l config.baseurl ≡ ok tt) (sym done.back)
              (deserialize-IsChecked token s authentic decrypted);
        code = code;
        code_verifier = s.code_verifier;
        tokens = tokens;
        context = done.context;
        given = given;
        exchanged = exchanged;
        valid = done.valid;
        safe = done.safe;
      }

  -- If only the states of logins that were answered decrypt under the secret key, the callback of a
  -- login sends the browser to a redirect URL only if OIDC is enabled, the URL passed the check, the
  -- provider gave tokens for the code, and the access token is valid; and all its cookies have the
  -- configured attributes.
  pub callback-IsChecked :
      (client : OidcClientService) (code state : Option String) (answer : Redirect)
      → IsAuthentic
      → callback validate expiry sha256_base64 decrypt loads post client config code state
        ≡ ok answer
      → IsCompleted client code answer
  unfolding callback
  callback-IsChecked client code state answer authentic h = elim (Bool-cases config.oidc_enabled) [
    | inr off ↦ absurd (cc (simp off at h))
    | inl on ↦ elim (Result-cases (parameter "Missing 'code' parameter in callback" code)) [
      | inr (e, failed) ↦ absurd (cc (simp (on, failed) at h))
      | inl (c, given) ↦
          elim (Result-cases (parameter "Missing 'state' parameter in callback" state)) [
            | inr (e, failed) ↦ absurd (cc (simp (on, given, failed) at h))
            | inl (token, sent) ↦
                let key = config.secret_key in
                elim (Result-cases (deserialize_auth_state sha256_base64 decrypt loads token key)) [
                  | inr (e, failed) ↦ absurd (cc (simp (on, given, sent, failed) at h))
                  | inl (s, decrypted) ↦
                      elim (Result-cases (exchange_code_for_tokens post client c s.code_verifier)) [
                        | inr (e, failed) ↦
                            absurd (cc (simp (on, given, sent, decrypted, failed) at h))
                        | inl (tokens, exchanged) ↦
                            completed client code c token s tokens answer on
                              (parameter-ok _ code c given).0 authentic decrypted exchanged
                              (simp (on, given, sent, decrypted, exchanged) at h)
                      ]
                ]
          ]
    ]
  ]
