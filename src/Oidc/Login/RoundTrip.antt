-- ===== src/Oidc/Login/RoundTrip.antt =====
-- The login state comes back from the provider as it was sent.
use zigbee_control.Prelude.{◌≡◌, refl, ℕ, String, true, Option, some, truthy, string_eq}
use zigbee_control.Prelude.Results.{Result, ok, ◌>>=◌}
use zigbee_control.Dict.{Dict}
use zigbee_control.Settings.{Settings}
use zigbee_control.Auth.Tokens.{AuthenticationException, AuthContext}
use zigbee_control.Oidc.{
  OidcClientService, AuthState, Form, TokenAnswer, create_auth_state, exchange_code_for_tokens,
}
use zigbee_control.Oidc.State.{
  Loaded, loaded, is_ascii, state_data, state_from, derive_fernet_key, serialize_auth_state,
  deserialize_auth_state,
}
use zigbee_control.Oidc.Login.{callback, finish_login}

-- What Fernet and `json` promise for one state: the token that encrypts its JSON gives the JSON
-- back under the same key before it is too old, is a text of ASCII characters that is not empty, and
-- the JSON of the state's dict is read back as that dict.
pub record ComesBack (encrypt : (key plaintext : String) → String)
    (decrypt : (key : String) → (max_age : ℕ) → (token : String) → Option String)
    (dumps : Dict String String → String) (loads : String → Loaded) (key : String) (s : AuthState)
    : Type 0 where
  pub decrypts : decrypt key 600 (encrypt key (dumps (state_data s))) ≡ some (dumps (state_data s))
  pub ascii : is_ascii (encrypt key (dumps (state_data s))) ≡ true
  pub filled : truthy (encrypt key (dumps (state_data s))) ≡ true
  pub loads_dumps : loads (dumps (state_data s)) ≡ loaded (state_data s)

pub state_from-state_data : (s : AuthState) → state_from (loaded (state_data s)) ≡ ok s
unfolding state_from state_data
state_from-state_data s = refl

module _ (sha256_base64 : String → String) (encrypt : (key plaintext : String) → String)
    (decrypt : (key : String) → (max_age : ℕ) → (token : String) → Option String)
    (dumps : Dict String String → String) (loads : String → Loaded) (key : String) where
  -- A login state that is encrypted with the secret key, and decrypted with it before it is too
  -- old, is the same state.
  pub deserialize-serialize :
      (s : AuthState)
      → ComesBack encrypt decrypt dumps loads (derive_fernet_key sha256_base64 key) s
      → deserialize_auth_state sha256_base64 decrypt loads
          (serialize_auth_state sha256_base64 encrypt dumps s key)
          key
        ≡ ok s
  unfolding deserialize_auth_state serialize_auth_state
  deserialize-serialize s back =
      simp (back.ascii, back.decrypts, back.loads_dumps) (state_from-state_data s)

  serialize-filled :
      (s : AuthState)
      → ComesBack encrypt decrypt dumps loads (derive_fernet_key sha256_base64 key) s
      → truthy (serialize_auth_state sha256_base64 encrypt dumps s key) ≡ true
  unfolding serialize_auth_state
  serialize-filled s back = back.filled

module _ (validate : String → Result AuthenticationException AuthContext)
    (expiry : String → Option ℕ) (sha256_base64 : String → String)
    (encrypt : (key plaintext : String) → String)
    (decrypt : (key : String) → (max_age : ℕ) → (token : String) → Option String)
    (dumps : Dict String String → String) (loads : String → Loaded)
    (post : (url : String) → Form → TokenAnswer) where
  callback_with_state :
      (client : OidcClientService) (config : Settings) (s : AuthState) (code state : String)
      → config.oidc_enabled ≡ true
      → truthy code ≡ true
      → truthy state ≡ true
      → deserialize_auth_state sha256_base64 decrypt loads state config.secret_key ≡ ok s
      → callback validate expiry sha256_base64 decrypt loads post client config
          (some code)
          (some state)
        ≡ (exchange_code_for_tokens post client code s.code_verifier
            >>= finish_login validate expiry config s)
  unfolding callback
  callback_with_state client config s code state on given filled d =
      simp (on, given, filled, d) refl

  -- When the provider sends the browser back with a code and the state of a login, and the state is
  -- not too old, the callback exchanges the code together with the verifier of that login, and
  -- finishes the login with its redirect URL.
  pub callback_of_login :
      (client : OidcClientService) (config : Settings)
      (code_verifier nonce redirect_url code : String)
      → config.oidc_enabled ≡ true
      → truthy code ≡ true
      → ComesBack encrypt decrypt dumps loads
          (derive_fernet_key sha256_base64 config.secret_key)
          (create_auth_state code_verifier nonce redirect_url)
      → let s = create_auth_state code_verifier nonce redirect_url in
        callback validate expiry sha256_base64 decrypt loads post client config
          (some code)
          (some (serialize_auth_state sha256_base64 encrypt dumps s config.secret_key))
        ≡ (exchange_code_for_tokens post client code code_verifier
            >>= finish_login validate expiry config s)
  unfolding create_auth_state
  callback_of_login client config code_verifier nonce redirect_url code on given back =
      callback_with_state client config _ code _ on given
        (serialize-filled sha256_base64 encrypt decrypt dumps loads config.secret_key _ back)
        (deserialize-serialize sha256_base64 encrypt decrypt dumps loads config.secret_key _ back)
