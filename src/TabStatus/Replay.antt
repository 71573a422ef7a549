-- ===== src/TabStatus/Replay.antt =====
-- What a connected client is told, and what emitting does.
use mathlib.Core.List.{append-nil, append_assoc}
use zigbee_control.Prelude.{
  ◌≡◌, ◌≢◌, refl, sym, ap, ◌∙◌, ℕ, suc, String, true, false, none, some, List, [], ◌∷◌, ◌++◌, map,
  arith, get_elem?, set, length, get_elem?-set_self, get_elem?-set_ne, string_eq, Option-cases, inl,
  inr, length-set, nat_eq, ◌⊎◌, get_elem?-lt, select, select_all, map-map,
}
use zigbee_control.Json.{Json}
use zigbee_control.Dict.{get}
use zigbee_control.Sse.{Manager, Env, Connection, SendRequest, tokens_to_send}
use zigbee_control.Sse.Sending.{event_request, send_event}
use zigbee_control.Sse.Delivery.{is_status, send_event_targeted, send_event_broadcast}
use zigbee_control.Sse.Coherence.{IsCoherent}
use zigbee_control.Sse.Interleaving.{Steps, done, Steps-trans, Steps-IsCoherent, send_event-Steps}
use zigbee_control.TabStatus.{
  TabStatus, StatusPayload, event_data, current, emit, send_all, on_client_connect,
}

module _ (env : Env) where
  -- The requests that tell a client the status of all tabs from index `idx` on.
  unfoldable pub replay : String → ℕ → List StatusPayload → List SendRequest
  replay token idx [] = []
  replay token idx (payload ∷ rest) =
      event_request env token (event_data idx payload) "tab_status" ∷ replay token (suc idx) rest

  module _
      (alive : (history : List SendRequest) (p : SendRequest)
        → is_status 404 (env.gateway history p) ≡ false) where
    send_all-replay :
        (r : String) (c : Connection) (idx : ℕ) (last : List StatusPayload) (m : Manager)
        → get m.connections r ≡ some c
        → (send_all env r idx last m).posts ≡ m.posts ++ replay c.token idx last
    unfolding send_all replay
    send_all-replay r c idx [] m h = sym (append-nil m.posts)
    send_all-replay r c idx (payload ∷ rest) m h =
        let sent = send_event env (some r) (event_data idx payload) "tab_status" none m in
        let (posted, _, kept) =
          send_event_targeted env (event_data idx payload) "tab_status" r c none m h in
        let still : get sent.1.connections r ≡ some c = ground (
          arith,
          kept,
          alive m.posts (event_request env c.token (event_data idx payload) "tab_status"),
        ) in
        send_all-replay r c (suc idx) rest sent.1 still
        ∙ ap (λ posts. posts ++ replay c.token (suc idx) rest) posted
        ∙ append_assoc m.posts _ _

    -- While the gateway knows its connections (it never answers 404), a connected client is
    -- sent the last status of every tab, each once and in the order of the tabs, and the stored
    -- statuses stay.
    pub on_client_connect_replays :
        (r : String) (c : Connection) (s : TabStatus)
        → get s.sse.connections r ≡ some c
        → let s' = on_client_connect env r s in
          (s'.sse.posts ≡ s.sse.posts ++ replay c.token 0 s.last) × (s'.last ≡ s.last)
    unfolding on_client_connect
    on_client_connect_replays r c s h = (send_all-replay r c 0 s.last s.sse h, refl)

  module _ (owner : String → String) where
    send_all-Steps :
        (r : String) (idx : ℕ) (last : List StatusPayload) (m : Manager)
        → IsCoherent owner m
        → Steps owner m (send_all env r idx last m)
    unfolding send_all
    send_all-Steps r idx [] m v = done
    send_all-Steps r idx (payload ∷ rest) m v =
        let m' = (send_event env (some r) (event_data idx payload) "tab_status" none m).1 in
        let first : Steps owner m m' =
          send_event-Steps owner env (some r) none (event_data idx payload) "tab_status" m v in
        Steps-trans owner first
          (send_all-Steps r (suc idx) rest m' (Steps-IsCoherent owner first v))

    -- As a callback of the manager, `_on_client_connect` is a run of the manager's steps.
    pub on_client_connect-Steps :
        (r : String) (s : TabStatus)
        → IsCoherent owner s.sse
        → Steps owner s.sse (on_client_connect env r s).sse
    unfolding on_client_connect
    on_client_connect-Steps r s v = send_all-Steps r 0 s.last s.sse v

  posts-send_to_all :
      (event : Json) (m : Manager)
      → (send_event env none event "tab_status" none m).1.posts
        ≡ m.posts ++ map (λ p. event_request env p.1.token event "tab_status") m.connections
  unfolding tokens_to_send
  posts-send_to_all event m =
      (send_event_broadcast env event "tab_status" none m).0
      ∙ ap (λ ps. m.posts ++ ps)
          (map-map _ _ (select (λ _. true) m.connections) ∙ ap (map _) (select_all m.connections))

  -- `emit` fails exactly for an index that has no status. Else the index has the new status,
  -- every other index the status it had, the number of tabs stays, and the event was posted to
  -- every connection, whatever its identity.
  pub emit_exact :
      (idx : ℕ) (payload : StatusPayload) (s : TabStatus)
      → ((current idx s ≡ none) × (emit env idx payload s ≡ none))
        ⊎ ((s' : TabStatus) × (emit env idx payload s ≡ some s')
            × (current idx s' ≡ some payload)
            × ((j : ℕ) → idx ≢ j → current j s' ≡ current j s)
            × (length s'.last ≡ length s.last)
            × (s'.sse.posts
                ≡ s.sse.posts
                  ++ map
                      (λ p. event_request env p.1.token (event_data idx payload) "tab_status")
                      s.sse.connections))
  unfolding current emit
  emit_exact idx payload s = elim (Option-cases (get_elem? s.last idx)) [
    | inl e ↦ inl (e, rw (e, emit))
    | inr (old, e) ↦ inr (
      record {
        last = set s.last idx payload;
        sse = (send_event env none (event_data idx payload) "tab_status" none s.sse).1;
      },
      rw (e, emit),
      get_elem?-set_self s.last idx payload (get_elem?-lt s.last idx e),
      (λ j ne. get_elem?-set_ne s.last payload ne),
      length-set s.last idx payload,
      posts-send_to_all (event_data idx payload) s.sse,
    )
  ]
