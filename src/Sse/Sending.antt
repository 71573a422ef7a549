-- ===== src/Sse/Sending.antt =====
-- The calls of app/services/sse_connection_manager.py that send to the gateway or notify callbacks.
use zigbee_control.Prelude.{
  ℕ, suc, String, Bool, true, false, Option, none, some, List, [], ◌∷◌, ◌++◌, if◌then◌else◌, ltb,
  ◌==◌, truthy, string_eq, nat_eq,
}
use zigbee_control.Json.{Json}
use zigbee_control.Dict.{get}
use zigbee_control.Sse.{
  SendRequest, Outcome, Manager, Env, register, unregister, forget, tokens_to_send, status,
  request_exception,
}

module _ (env : Env) where
  unfoldable pub post : SendRequest → Manager → Outcome × Manager
  post request m = (env.gateway m.posts request, record m { posts = m.posts ++ request ∷ [] })

  abbrev pub event_request : String → Json → String → SendRequest
  event_request token event_data event_name = record {
    token = token;
    event = some (record { name = event_name; payload = env.dumps event_data });
    close = false;
  }

  -- What follows the answer to a posted event.
  unfoldable pub conclude : Outcome → String → Option String → Manager → Bool × Manager
  unfolding forget
  conclude request_exception token request_id m = (false, m)
  conclude (status code) token none m = (code == 200, m)
  conclude (status code) token (some request_id) m =
      if code == 404
      then (false, if truthy request_id then forget request_id token m else m)
      else (code == 200, m)

  unfoldable pub send_event_to_token :
      String → Json → String → Option String → Manager → Bool × Manager
  unfolding post conclude
  send_event_to_token token event_data event_name request_id m =
      let (answer, m') = post (event_request token event_data event_name) m in
      conclude answer token request_id m'

  unfoldable pub close_connection_internal : String → Manager → Manager
  unfolding post
  close_connection_internal token m =
      (post (record { token = token; event = none; close = true }) m).1

  -- The loop of a broadcast, with its count of successes.
  unfoldable pub send_each : ℕ → Json → String → List (String × String) → Manager → ℕ × Manager
  send_each success_count event_data event_name [] m = (success_count, m)
  send_each success_count event_data event_name ((request_id, token) ∷ rest) m =
      let (sent, m') = send_event_to_token token event_data event_name (some request_id) m in
      send_each (if sent then suc success_count else success_count) event_data event_name rest m'

  unfoldable pub broadcast : Json → String → List (String × String) → Manager → Bool × Manager
  broadcast event_data event_name [] m = (false, m)
  broadcast event_data event_name (p ∷ rest) m =
      let (success_count, m') = send_each 0 event_data event_name (p ∷ rest) m in
      (ltb 0 success_count, m')

  unfoldable pub send_event :
      Option String → Json → String → Option String → Manager → Bool × Manager
  unfolding broadcast
  send_event none event_data event_name target_subject m =
      broadcast event_data event_name (tokens_to_send target_subject m) m
  send_event (some request_id) event_data event_name target_subject m =
      elim (get m.connections request_id) [
        | none ↦ (false, m)
        | some c ↦ send_event_to_token c.token event_data event_name (some request_id) m
      ]

  -- The observer loop: whatever a callback raises is swallowed.
  unfoldable pub notify : List ℕ → String → Manager → Manager
  notify [] request_id m = m
  notify (callback ∷ rest) request_id m =
      notify rest request_id (env.invoke callback request_id m).1

  abbrev pub close_old : Option String → Manager → Manager
  close_old none m = m
  close_old (some token) m = if truthy token then close_connection_internal token m else m

  unfoldable pub on_connect : String → String → String → Manager → Manager
  unfolding register
  on_connect request_id token url m =
      let (old, m₁) = register request_id token url m in
      let m₂ = close_old old m₁ in notify m₂.on_connect_callbacks request_id m₂

  abbrev pub report : Option String → Manager → Manager
  report none m = m
  report (some request_id) m = notify m.on_disconnect_callbacks request_id m

  unfoldable pub on_disconnect : String → Manager → Manager
  unfolding unregister
  on_disconnect token m = let (gone, m') = unregister token m in report gone m'
