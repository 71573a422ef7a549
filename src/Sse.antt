-- ===== src/Sse.antt =====
-- app/services/sse_connection_manager.py: `Sse.Manager` is the state of SSEConnectionManager, and
-- each method is a function of the same name on it. The HTTP gateway, `json.dumps` and the
-- registered callbacks are the fields of `Env`. `Sending` has the calls that use them, and the other
-- modules the proofs.
pub mod Sending
pub mod Delivery
pub mod Coherence
pub mod Interleaving
pub mod Lifetime
pub mod Callback
mod Tests
use zigbee_control.Prelude.{
  ℕ, suc, ◌≡◌, refl, String, Bool, true, false, not, ◌&&◌, ◌||◌, Option, none, some, List, [], ◌∷◌,
  ◌++◌, map, if◌then◌else◌, ltb, ◌==◌, truthy, select, string_eq, nat_eq,
}
use zigbee_control.Prelude.Int.{ℤ, pos, succ, pred}
use zigbee_control.Json.{Json}
use zigbee_control.Dict.{Dict, get, put, pop, has}

pub record Connection : Type 0 where
  pub token : String
  pub url : String

-- SSEGatewayEventData and SSEGatewaySendRequest of app/schemas/sse_gateway_schema.py
pub record Event : Type 0 where
  pub name : String
  pub payload : String

pub record SendRequest : Type 0 where
  pub token : String
  pub event : Option Event
  pub close : Bool

pub record ConnectionInfo : Type 0 where
  pub request_id : String
  pub subject : Option String

-- What a `requests.post` ends in: an HTTP status, or a `RequestException`.
pub data Outcome : Type 0 where
  status : ℕ → Outcome
  request_exception : Outcome

-- `active` is the gauge of active connections, `posts` the requests made to the gateway so far.
-- A callback is known by a number.
pub record Manager : Type 0 where
  pub connections : Dict String Connection
  pub token_to_request_id : Dict String String
  pub identity_map : Dict String String
  pub on_connect_callbacks : List ℕ
  pub on_disconnect_callbacks : List ℕ
  pub active : ℤ
  pub posts : List SendRequest

-- The gateway's answer may depend on all requests that it had before. A callback leaves a state
-- of the manager, and returns (`true`) or raises (`false`).
pub record Env : Type 0 where
  pub dumps : Json → String
  pub gateway : List SendRequest → SendRequest → Outcome
  pub invoke : ℕ → String → Manager → Bool × Manager

abbrev pub init : Manager
init = record {
  connections = [];
  token_to_request_id = [];
  identity_map = [];
  on_connect_callbacks = [];
  on_disconnect_callbacks = [];
  active = pos 0;
  posts = [];
}

unfoldable pub register_on_connect : ℕ → Manager → Manager
register_on_connect callback m = record m {
  on_connect_callbacks = m.on_connect_callbacks ++ callback ∷ [];
}

unfoldable pub register_on_disconnect : ℕ → Manager → Manager
register_on_disconnect callback m = record m {
  on_disconnect_callbacks = m.on_disconnect_callbacks ++ callback ∷ [];
}

unfoldable pub has_connection : String → Manager → Bool
has_connection request_id m = has m.connections request_id

unfoldable pub bind_identity : String → String → Manager → Manager
unfolding has
bind_identity request_id subject m =
    if has m.connections request_id
    then record m { identity_map = put m.identity_map request_id subject }
    else m

unfoldable pub get_connection_info : String → Manager → Option ConnectionInfo
unfolding has
get_connection_info request_id m =
    if has m.connections request_id
    then some (record { request_id = request_id; subject = get m.identity_map request_id })
    else none

abbrev pub old_token : Option Connection → Option String
old_token none = none
old_token (some c) = some c.token

abbrev pub without_old : Option Connection → Dict String String → Dict String String
without_old none reverse = reverse
without_old (some c) reverse = pop reverse c.token

-- The first locked section of `on_connect`: the token to close, and the new state.
unfoldable pub register : String → String → String → Manager → Option String × Manager
register request_id token url m =
    let existing = get m.connections request_id in
    (
      old_token existing,
      record m {
        connections = put m.connections request_id (record { token = token; url = url });
        token_to_request_id = put (without_old existing m.token_to_request_id) token request_id;
        active = succ m.active;
      },
    )

abbrev pub holds : Option Connection → String → Bool
holds none token = false
holds (some c) token = c.token == token

-- The part of the locked section of `on_disconnect` where the token is known.
unfoldable pub unregister_known : String → String → Manager → Option String × Manager
unregister_known token request_id m =
    if holds (get m.connections request_id) token
    then (
      some request_id,
      record m {
        connections = pop m.connections request_id;
        token_to_request_id = pop m.token_to_request_id token;
        identity_map = pop m.identity_map request_id;
        active = pred m.active;
      },
    )
    else (none, record m { token_to_request_id = pop m.token_to_request_id token })

-- The locked section of `on_disconnect`: the request id to report, and the new state.
unfoldable pub unregister : String → Manager → Option String × Manager
unfolding unregister_known
unregister token m = elim (get m.token_to_request_id token) [
  | none ↦ (none, m)
  | some request_id ↦ if truthy request_id then unregister_known token request_id m else (none, m)
]

-- The clean-up after a 404 answer.
unfoldable pub forget : String → String → Manager → Manager
forget request_id token m = record m {
  connections = pop m.connections request_id;
  token_to_request_id = pop m.token_to_request_id token;
}

-- Whether a connection with this identity is meant by a broadcast to `target_subject`.
abbrev pub is_target : (target_subject identity : Option String) → Bool
is_target none identity = true
is_target (some subject) none = false
is_target (some subject) (some identity) = identity == subject || identity == "local-user"

-- The request ids and tokens that a broadcast reads under the lock.
unfoldable pub tokens_to_send : Option String → Manager → List (String × String)
tokens_to_send target_subject m =
    map (λ (request_id, c). (request_id, c.token))
      (select (λ p. is_target target_subject (get m.identity_map p.0)) m.connections)
