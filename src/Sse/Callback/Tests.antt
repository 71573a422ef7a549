-- ===== src/Sse/Callback/Tests.antt =====
-- The endpoint of the gateway's callbacks at concrete calls.
use zigbee_control.Prelude.{
  ◌≡◌, refl, ◌⊎◌, inl, inr, ℕ, String, Bool, true, Option, none, some, List, [], ◌∷◌, truthy,
  string_eq,
}
use zigbee_control.Prelude.Results.{Result, ok}
use zigbee_control.Json.{text, object, end, field}
use zigbee_control.Dict.{get}
use zigbee_control.Settings.{Settings, load, default_environment}
use zigbee_control.Auth.Tokens.{AuthenticationException, AuthContext}
use zigbee_control.Sse.{Manager, Env, init, status}
use zigbee_control.Sse.Coherence.{IsCoherent, init-IsCoherent}
use zigbee_control.Sse.Interleaving.{Steps, done}
use zigbee_control.Sse.Callback.{
  Body, parsed, ConnectCallback, unauthorized, failure, success, handle_callback,
  bind_callback_identity, extract_token_from_headers,
}
use zigbee_control.Sse.Callback.Admission.{handle_callback-IsAuthentic, handle_callback-IsCoherent}
use zigbee_control.Sse.Callback.Identity.{IsVouched, bind_callback_identity-IsVouched}

abbrev answering : Env
answering = record { dumps = λ j. "{}"; gateway = λ h p. status 200; invoke = λ k r m. (true, m) }

abbrev production : Settings
production = load (record default_environment {
  flask_env = "production";
  oidc_enabled = true;
  sse_callback_secret = "s3";
})

abbrev alice : AuthContext
alice = record { subject = "alice"; email = none; name = none; roles = [] }

abbrev validate : String → Result AuthenticationException AuthContext
validate token = ok alice

abbrev headers : List (String × String)
headers = ("Accept", "*/*") ∷ ("cookie", "a=1; access_token = tok; b=2") ∷ []

abbrev body : Body
body = parsed (object (field "action" (text "connect") end))

abbrev callback : ConnectCallback
callback = record {
  token = "t1";
  request = record { url = "/sse?request_id=r1"; headers = headers };
}

abbrev ids : String → Option (List String)
ids url = some ("r1" ∷ [])

abbrev query : Option String
query = some "no"

abbrev r1 : String
r1 = "r1"

headers_token : extract_token_from_headers headers "access_token" ≡ some "tok"
unfolding extract_token_from_headers zigbee_control.Auth.Roles.same_letters
    zigbee_control.Prelude.Texts.split_char zigbee_control.Prelude.Texts.partition
    zigbee_control.Config.strip zigbee_control.Config.is_space
headers_token = refl

called_identity :
    get
      (handle_callback answering validate production
        (λ p. some callback)
        (λ p. none)
        ids
        (some "s3")
        body
        init).1.identity_map
      "r1"
    ≡ some "alice"
unfolding get handle_callback zigbee_control.Sse.Callback.authenticate_callback load
    zigbee_control.Auth.Tokens.find_field bind_callback_identity
    zigbee_control.Auth.Roles.same_letters zigbee_control.Prelude.Texts.split_char
    zigbee_control.Prelude.Texts.partition zigbee_control.Config.strip
    zigbee_control.Config.is_space zigbee_control.Sse.bind_identity
    zigbee_control.Sse.Sending.on_connect zigbee_control.Sse.Sending.notify zigbee_control.Dict.put
called_identity = refl

handle_callback-IsAuthentic_example :
    (handle_callback answering validate production
        (λ p. some callback)
        (λ p. none)
        ids
        query
        body
        init)
      ≡ (failure unauthorized, init)
    ⊎ ((query ≡ some production.sse_callback_secret)
        × (truthy production.sse_callback_secret ≡ true))
unfolding load
handle_callback-IsAuthentic_example =
    handle_callback-IsAuthentic answering validate production (λ p. some callback) (λ p. none) ids
      query body init refl

handle_callback-IsCoherent_example :
    let out =
      handle_callback answering validate production
        (λ p. some callback)
        (λ p. none)
        ids
        (some "s3")
        body
        init in
    Steps (λ t. "r1") init out.1 × IsCoherent (λ t. "r1") out.1
handle_callback-IsCoherent_example =
    handle_callback-IsCoherent answering validate production (λ p. some callback) (λ p. none) ids
      (λ t. "r1") (λ payload c r rest h e. cc) (λ k r m v. done) (some "s3") body init
      (init-IsCoherent (λ t. "r1"))

abbrev connected : Manager
connected = record init { connections = ("r1", record { token = "t1"; url = "u" }) ∷ [] }

bind_callback_identity-IsVouched_example :
    let after =
      get
        (bind_callback_identity answering validate production "r1" headers connected).identity_map
        "r1" in
    (after ≡ get connected.identity_map "r1")
    ⊎ ((r1 ≡ r1)
        × (subject : String) × IsVouched answering validate production headers subject
        × (after ≡ some subject))
bind_callback_identity-IsVouched_example =
    bind_callback_identity-IsVouched answering validate production "r1" headers connected "r1"
