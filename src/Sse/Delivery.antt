-- ===== src/Sse/Delivery.antt =====
-- What the gateway is asked to deliver, and what `send_event` reports of it.
use mathlib.Core.List.{append-nil, append_assoc}
use zigbee_control.Prelude.{
  ℕ, suc, ◌+◌, ◌≡◌, refl, sym, ap, ◌∙◌, String, Bool, false, Option, none, some, List, [], ◌∷◌,
  ◌++◌, map, arith, if◌then◌else◌, ltb, ◌==◌, nat_eq, ◌&&◌, truthy, string_eq,
}
use zigbee_control.Json.{Json}
use zigbee_control.Dict.{get, pop}
use zigbee_control.Sse.{
  Manager, Env, Connection, Outcome, status, request_exception, SendRequest, tokens_to_send,
}
use zigbee_control.Sse.Sending.{
  event_request, conclude, post, send_event_to_token, send_each, broadcast, send_event,
}

abbrev pub is_status : ℕ → Outcome → Bool
is_status code (status answer) = answer == code
is_status code request_exception = false

module _ (env : Env) where
  pub posts-conclude :
      (o : Outcome) (token : String) (r : Option String) (m : Manager)
      → (conclude env o token r m).1.posts ≡ m.posts
  unfolding conclude
  posts-conclude request_exception token r m = refl
  posts-conclude (status code) token none m = refl
  posts-conclude (status code) token (some r) m = ground arith

  conclude-is_status :
      (o : Outcome) (token : String) (r : Option String) (m : Manager)
      → (conclude env o token r m).0 ≡ is_status 200 o
  unfolding conclude
  conclude-is_status request_exception token r m = refl
  conclude-is_status (status code) token none m = refl
  conclude-is_status (status code) token (some r) m = ground arith

  connections-conclude :
      (o : Outcome) (token r : String) (m : Manager)
      → (conclude env o token (some r) m).1.connections
        ≡ (if is_status 404 o && truthy r then pop m.connections r else m.connections)
  unfolding conclude
  connections-conclude request_exception token r m = refl
  connections-conclude (status code) token r m = ground arith

  module _ (event_data : Json) (event_name : String) where
    -- The requests of a broadcast to these request ids and tokens, in order.
    abbrev pub requests : List (String × String) → List SendRequest
    requests ps = map (λ p. event_request env p.1 event_data event_name) ps

    -- How many of the requests are answered 200, if made one after the other after `history`.
    unfoldable pub accepted : List SendRequest → List SendRequest → ℕ
    accepted history [] = 0
    accepted history (p ∷ ps) =
        let rest = accepted (history ++ p ∷ []) ps in
        if is_status 200 (env.gateway history p) then suc rest else rest

    pub posts-send_event_to_token :
        (token : String) (r : Option String) (m : Manager)
        → (send_event_to_token env token event_data event_name r m).1.posts
          ≡ m.posts ++ event_request env token event_data event_name ∷ []
    unfolding send_event_to_token
    posts-send_event_to_token token r m = posts-conclude _ token r _

    send_event_to_token-is_status :
        (token : String) (r : Option String) (m : Manager)
        → (send_event_to_token env token event_data event_name r m).0
          ≡ is_status 200 (env.gateway m.posts (event_request env token event_data event_name))
    unfolding send_event_to_token
    send_event_to_token-is_status token r m = conclude-is_status _ token r _

    connections-send_event_to_token :
        (token r : String) (m : Manager)
        → (send_event_to_token env token event_data event_name (some r) m).1.connections ≡ (
            if is_status 404 (env.gateway m.posts (event_request env token event_data event_name))
              && truthy r
            then pop m.connections r
            else m.connections)
    unfolding send_event_to_token
    connections-send_event_to_token token r m =
        let request = event_request env token event_data event_name in
        let (answer, m') = post env request m in connections-conclude answer token r m'

    pub posts-send_each :
        (ps : List (String × String)) (k : ℕ) (m : Manager)
        → (send_each env k event_data event_name ps m).1.posts ≡ m.posts ++ requests ps
    unfolding send_each
    posts-send_each [] k m = sym (append-nil m.posts)
    posts-send_each ((r, token) ∷ ps) k m =
        let (sent, m') = send_event_to_token env token event_data event_name (some r) m in
        posts-send_each ps (if sent then suc k else k) m'
        ∙ ap (λ h. h ++ requests ps) (posts-send_event_to_token token (some r) m)
        ∙ append_assoc m.posts _ _

    send_each-accepted :
        (ps : List (String × String)) (k : ℕ) (m : Manager)
        → (send_each env k event_data event_name ps m).0 ≡ k + accepted m.posts (requests ps)
    unfolding send_each accepted
    send_each-accepted [] k m = omega arith
    send_each-accepted ((r, token) ∷ ps) k m =
        let (sent, m') = send_event_to_token env token event_data event_name (some r) m in
        ground (
          arith,
          send_each-accepted ps (if sent then suc k else k) m',
          posts-send_event_to_token token (some r) m,
          send_event_to_token-is_status token (some r) m,
        )

    posts-broadcast :
        (ps : List (String × String)) (m : Manager)
        → (broadcast env event_data event_name ps m).1.posts ≡ m.posts ++ requests ps
    unfolding broadcast
    posts-broadcast [] m = sym (append-nil m.posts)
    posts-broadcast (p ∷ ps) m = posts-send_each (p ∷ ps) 0 m

    broadcast-accepted :
        (ps : List (String × String)) (m : Manager)
        → (broadcast env event_data event_name ps m).0 ≡ ltb 0 (accepted m.posts (requests ps))
    unfolding broadcast accepted
    broadcast-accepted [] m = refl
    broadcast-accepted (p ∷ ps) m = ap (ltb 0) (send_each-accepted (p ∷ ps) 0 m ∙ omega arith)

    -- A broadcast posts the event once for each connection that is meant, in the order of the
    -- connections, to the tokens they had at the start, whatever the gateway answers; and it
    -- reports success exactly if one of these requests is answered 200.
    pub send_event_broadcast :
        (target_subject : Option String) (m : Manager)
        → let meant = requests (tokens_to_send target_subject m) in
          ((send_event env none event_data event_name target_subject m).1.posts ≡ m.posts ++ meant)
          × ((send_event env none event_data event_name target_subject m).0
              ≡ ltb 0 (accepted m.posts meant))
    unfolding send_event
    send_event_broadcast target_subject m = (
      posts-broadcast (tokens_to_send target_subject m) m,
      broadcast-accepted (tokens_to_send target_subject m) m,
    )

    -- A targeted event for a connected request id is posted once, to the token of its
    -- connection. It is reported as sent exactly if the answer is 200. An answer 404 removes the
    -- connection (unless the request id is empty), and any other answer leaves the connections.
    pub send_event_targeted :
        (r : String) (c : Connection) (target_subject : Option String) (m : Manager)
        → get m.connections r ≡ some c
        → let request = event_request env c.token event_data event_name in
          let answer = env.gateway m.posts request in
          let after = send_event env (some r) event_data event_name target_subject m in
          (after.1.posts ≡ m.posts ++ request ∷ [])
          × (after.0 ≡ is_status 200 answer)
          × (after.1.connections
              ≡ (if is_status 404 answer && truthy r then pop m.connections r else m.connections))
    unfolding send_event
    send_event_targeted r c target_subject m h =
        rw (h, send_event)
          (
            posts-send_event_to_token c.token (some r) m,
            send_event_to_token-is_status c.token (some r) m,
            connections-send_event_to_token c.token r m,
          )
