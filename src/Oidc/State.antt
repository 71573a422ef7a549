-- ===== src/Oidc/State.antt =====
-- app/utils/auth.py: the login state that travels through the provider in the `state` parameter, the
-- check of a redirect URL, and the reading of a token's expiry. Fernet's `encrypt` and `decrypt` (for
-- the key, the greatest age and the token), the text of a digest, `json`, `urlparse` and PyJWT's
-- `decode` without verification are parameters.
use Prim.Native.String.{String}
use Prim.Native.Char.{code}
use zigbee_control.Prelude.{
  ℕ, ◌-◌, ◌*◌, ◌/◌, Bool, true, not, ◌&&◌, Option, none, some, [], ◌∷◌, if◌then◌else◌, truthy, ◌==◌,
  string_eq, ltb,
}
use zigbee_control.Prelude.Results.{Result, ok, err, ◌>>=◌}
use zigbee_control.Dict.{Dict, get}
use zigbee_control.Errors.{Exception, validation_exception, other_exception}
use zigbee_control.Oidc.{AuthState}

-- What `json.loads` makes of a text, as far as it matters here: an object whose values are texts.
pub data Loaded : Type 0 where
  json_decode_error no_object : Loaded
  loaded : Dict String String → Loaded

-- Whether `s.encode("ascii")` succeeds.
abbrev pub is_ascii : String → Bool
is_ascii String.[] = true
is_ascii (String.◌∷◌ c s) = ltb (code c) 128 && is_ascii s

unfoldable pub state_data : AuthState → Dict String String
state_data auth_state =
    ("code_verifier", auth_state.code_verifier)
    ∷ ("redirect_url", auth_state.redirect_url)
    ∷ ("nonce", auth_state.nonce)
    ∷ []

abbrev pub malformed_state : Exception
malformed_state = validation_exception "Malformed authentication state"

-- `data[key]`
abbrev pub required : Option String → Result Exception String
required none = err malformed_state
required (some value) = ok value

unfoldable pub state_from : Loaded → Result Exception AuthState
unfolding get
state_from json_decode_error = err malformed_state
state_from no_object = err malformed_state
state_from (loaded received) = do
  code_verifier ← required (get received "code_verifier")
  redirect_url ← required (get received "redirect_url")
  nonce ← required (get received "nonce")
  ok (record { code_verifier = code_verifier; redirect_url = redirect_url; nonce = nonce })

module _ (sha256_base64 : String → String) where
  unfoldable pub derive_fernet_key : (secret_key : String) → String
  derive_fernet_key secret_key = sha256_base64 secret_key

  module _ (encrypt : (key plaintext : String) → String) (dumps : Dict String String → String) where
    unfoldable pub serialize_auth_state : AuthState → (secret_key : String) → String
    unfolding derive_fernet_key state_data
    serialize_auth_state auth_state secret_key =
        encrypt (derive_fernet_key secret_key) (dumps (state_data auth_state))

  module _ (decrypt : (key : String) → (max_age : ℕ) → (token : String) → Option String)
      (loads : String → Loaded) where
    abbrev pub state_in : Option String → Result Exception AuthState
    state_in none = err (validation_exception "Invalid or expired authentication state")
    state_in (some plaintext) = state_from (loads plaintext)

    -- The default of `max_age` is 600 seconds. A text that is not ASCII raises a
    -- `UnicodeEncodeError`, which no clause catches.
    unfoldable pub deserialize_auth_state :
        (encrypted_data secret_key : String) → Result Exception AuthState
    unfolding derive_fernet_key state_from
    deserialize_auth_state encrypted_data secret_key =
        if is_ascii encrypted_data
        then state_in (decrypt (derive_fernet_key secret_key) 600 encrypted_data)
        else err (other_exception "ordinal not in range(128)")

-- What `urlparse` returns.
pub record Url : Type 0 where
  pub scheme : String
  pub netloc : String

unfoldable pub is_allowed_redirect : (redirect base : Url) → Bool
is_allowed_redirect redirect base =
    if not (truthy redirect.scheme) && not (truthy redirect.netloc)
    then true
    else redirect.scheme == base.scheme && redirect.netloc == base.netloc

-- `urlparse` raises a `ValueError` for a few texts.
unfoldable pub validate_redirect_url :
    (urlparse : String → Result String Url)
    → (redirect_url base_url : String) → Result Exception (Unit {0})
unfolding is_allowed_redirect
validate_redirect_url urlparse redirect_url base_url = elim (urlparse redirect_url) [
  | err message ↦ err (other_exception message)
  | ok redirect ↦ elim (urlparse base_url) [
    | err message ↦ err (other_exception message)
    | ok base ↦
        if is_allowed_redirect redirect base
        then ok tt
        else err (validation_exception "Invalid redirect URL - external redirects not allowed")
  ]
]

-- What the decoding of a token without verification ends in: a `DecodeError`, or its `exp` in
-- seconds, where it has one.
pub data Unverified : Type 0 where
  decode_error : Unverified
  expires : Option ℕ → Unverified

abbrev pub seconds_left : Unverified → (now_ms : ℕ) → Option ℕ
seconds_left decode_error now_ms = none
seconds_left (expires none) now_ms = none
seconds_left (expires (some exp)) now_ms = some ((exp * 1000 - now_ms) / 1000)

-- The clock is read in milliseconds; the difference is cut to whole seconds, and to 0 where it is
-- negative.
unfoldable pub get_token_expiry_seconds :
    (decode : String → Unverified) → (now_ms : ℕ) → String → Option ℕ
get_token_expiry_seconds decode now_ms token = seconds_left (decode token) now_ms
