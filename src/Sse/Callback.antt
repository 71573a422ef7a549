-- ===== src/Sse/Callback.antt =====
-- app/api/sse.py: the endpoint that the gateway calls when a client connects or disconnects.
-- Parameters are Pydantic's `model_validate` of the two payloads, `parse_qs` with `urlparse` (which
-- may raise), and `validate`, which is `AuthService.validate_token`.
pub mod Admission
pub mod Identity
mod Tests
use zigbee_control.Prelude.{
  ℕ, String, Bool, true, false, not, ◌&&◌, ◌||◌, Option, none, some, List, [], ◌∷◌, if◌then◌else◌,
  ◌==◌, string_eq, truthy, truthy_opt, nat_eq,
}
use zigbee_control.Prelude.Results.{Result, ok, err}
use zigbee_control.Prelude.Texts.{has_char, partition, split_char}
use zigbee_control.Json.{Json, text, object, Fields}
use zigbee_control.Config.{strip}
use zigbee_control.Settings.{Settings, is_production}
use zigbee_control.Auth.Roles.{same_letters}
use zigbee_control.Auth.Tokens.{AuthenticationException, AuthContext, find_field}
use zigbee_control.Sse.{Manager, Env, bind_identity}
use zigbee_control.Sse.Sending.{on_connect, on_disconnect}

-- SSEGatewayRequestInfo, SSEGatewayConnectCallback and SSEGatewayDisconnectCallback
pub record RequestInfo : Type 0 where
  pub url : String
  pub headers : List (String × String)

pub record ConnectCallback : Type 0 where
  pub token : String
  pub request : RequestInfo

pub record DisconnectCallback : Type 0 where
  pub reason : String
  pub token : String
  pub request : RequestInfo

-- What `request.get_json` ends in: a value (`null` too), or an exception.
pub data Body : Type 0 where
  unsupported_media_type bad_request : Body
  parsed : Json → Body

-- The texts of the answers with an error.
pub data CallbackError : Type 0 where
  unauthorized missing_body invalid_json missing_request_id invalid_request_id unknown_action :
      CallbackError
  invalid_payload internal_server_error : CallbackError

pub data Reply : Type 0 where
  success : Reply
  failure : CallbackError → Reply

abbrev pub status_code : Reply → ℕ
status_code success = 200
status_code (failure unauthorized) = 401
status_code (failure internal_server_error) = 500
status_code (failure _) = 400

-- `_authenticate_callback`
unfoldable pub authenticate_callback : (secret_from_query : Option String) → Settings → Bool
authenticate_callback none settings = not (is_production settings)
authenticate_callback (some secret) settings =
    if not (is_production settings)
    then true
    else truthy settings.sse_callback_secret && secret == settings.sse_callback_secret

-- The token of one `Authorization` header.
abbrev pub bearer_token : Option (String × String) → Option String
bearer_token none = none
bearer_token (some (scheme, token)) = if same_letters scheme "BEARER" then some token else none

abbrev pub or_else : Option String → Option String → Option String
or_else none second = second
or_else (some s) second = some s

unfoldable pub authorization_token : List (String × String) → Option String
authorization_token [] = none
authorization_token ((key, value) ∷ headers) =
    let rest = authorization_token headers in
    if same_letters key "AUTHORIZATION"
    then or_else (bearer_token (partition 32 value)) rest
    else rest

-- The value of one part of a `Cookie` header, if it has the name.
abbrev pub named_value : (cookie_name : String) → Option (String × String) → Option String
named_value cookie_name none = none
named_value cookie_name (some (name, value)) =
    if strip name == cookie_name then some (strip value) else none

unfoldable pub cookie_in : (cookie_name : String) → (cookie_parts : List String) → Option String
cookie_in cookie_name [] = none
cookie_in cookie_name (part ∷ parts) =
    or_else (named_value cookie_name (partition 61 (strip part))) (cookie_in cookie_name parts)

unfoldable pub cookie_token : (cookie_name : String) → List (String × String) → Option String
unfolding cookie_in
cookie_token cookie_name [] = none
cookie_token cookie_name ((key, value) ∷ headers) =
    let rest = cookie_token cookie_name headers in
    if same_letters key "COOKIE"
    then or_else (cookie_in cookie_name (split_char 59 value)) rest
    else rest

-- `_extract_token_from_headers`
unfoldable pub extract_token_from_headers :
    List (String × String) → (cookie_name : String) → Option String
unfolding authorization_token cookie_token
extract_token_from_headers headers cookie_name =
    or_else (authorization_token headers) (cookie_token cookie_name headers)

module _ (env : Env) (validate : String → Result AuthenticationException AuthContext)
    (settings : Settings) where
  abbrev pub bind_validated :
      String → Result AuthenticationException AuthContext → Manager → Manager
  bind_validated request_id (err e) m = m
  bind_validated request_id (ok context) m = bind_identity request_id context.subject m

  abbrev pub bind_token : String → Option String → Manager → Manager
  bind_token request_id none m = m
  bind_token request_id (some token) m =
      if truthy token then bind_validated request_id (validate token) m else m

  -- `_bind_identity`
  unfoldable pub bind_callback_identity : String → List (String × String) → Manager → Manager
  unfolding extract_token_from_headers
  bind_callback_identity request_id headers m =
      if not settings.oidc_enabled
      then bind_identity request_id "local-user" m
      else bind_token request_id (extract_token_from_headers headers settings.oidc_cookie_name) m

  module _ (connect_callback : Fields → Option ConnectCallback)
      (disconnect_callback : Fields → Option DisconnectCallback)
      (request_ids : (url : String) → Option (List String)) where
    unfoldable pub connect : String → ConnectCallback → Manager → Reply × Manager
    connect request_id callback m = (
      success,
      bind_callback_identity request_id callback.request.headers
          (on_connect env request_id callback.token callback.request.url m),
    )

    abbrev pub connect_with : Option (List String) → ConnectCallback → Manager → Reply × Manager
    connect_with none callback m = (failure internal_server_error, m)
    connect_with (some []) callback m = (failure missing_request_id, m)
    connect_with (some (request_id ∷ _)) callback m =
        if not (truthy request_id)
        then (failure missing_request_id, m)
        else if has_char 58 request_id
        then (failure invalid_request_id, m)
        else connect request_id callback m

    abbrev pub handle_connect : Option ConnectCallback → Manager → Reply × Manager
    handle_connect none m = (failure invalid_payload, m)
    handle_connect (some callback) m = connect_with (request_ids callback.request.url) callback m

    abbrev pub handle_disconnect : Option DisconnectCallback → Manager → Reply × Manager
    handle_disconnect none m = (failure invalid_payload, m)
    handle_disconnect (some callback) m = (success, on_disconnect env callback.token m)

    abbrev pub handle_action : Option Json → Fields → Manager → Reply × Manager
    handle_action (some (text action)) payload m =
        if action == "connect"
        then handle_connect (connect_callback payload) m
        else if action == "disconnect"
        then handle_disconnect (disconnect_callback payload) m
        else (failure unknown_action, m)
    handle_action _ payload m = (failure unknown_action, m)

    -- A payload that is no object has no `get`.
    abbrev pub handle_payload : Body → Manager → Reply × Manager
    handle_payload unsupported_media_type m = (failure missing_body, m)
    handle_payload bad_request m = (failure invalid_json, m)
    handle_payload (parsed Json.null) m = (failure missing_body, m)
    handle_payload (parsed (object payload)) m =
        handle_action (find_field "action" payload) payload m
    handle_payload (parsed _) m = (failure internal_server_error, m)

    unfoldable pub handle_callback : (secret : Option String) → Body → Manager → Reply × Manager
    unfolding connect
    handle_callback secret body m =
        if authenticate_callback secret settings
        then handle_payload body m
        else (failure unauthorized, m)
