-- ===== src/Sse/Interleaving.antt =====
-- Threads of the manager: the locked sections are the steps, and between two sections of one
-- call any sections of other calls may run.
use zigbee_control.Prelude.{
  ◌≡◌, ℕ, String, Option, none, some, List, [], ◌∷◌, ◌++◌, string_eq, if◌then◌else◌, Option-cases,
  Bool-cases, inl, inr, truthy, All, All-select, All-map, suc, subst, ◌==◌, nat_eq,
}
use zigbee_control.Json.{Json}
use zigbee_control.Dict.{get, All-items}
use zigbee_control.Sse.{
  Manager, SendRequest, Env, Outcome, status, request_exception, register, unregister, forget,
  bind_identity, register_on_connect, register_on_disconnect, tokens_to_send,
}
use zigbee_control.Sse.Sending.{
  post, event_request, conclude, send_event_to_token, send_each, broadcast, send_event, notify,
  close_old, close_connection_internal, on_connect, on_disconnect, report,
}
use zigbee_control.Sse.Coherence.{
  IsCoherent, register-IsCoherent, unregister-IsCoherent, forget-IsCoherent,
  bind_identity-IsCoherent,
}

module _ (owner : String → String) where
  -- One locked section, or one request to the gateway. A clean-up may come with a request id and
  -- a token that the thread read long before.
  pub data Step (m : Manager) : Manager → Type 0 where
    registers : (t url : String) → Step m (register (owner t) t url m).1
    unregisters : (t : String) → Step m (unregister t m).1
    forgets : (t : String) → Step m (forget (owner t) t m)
    binds : (r subject : String) → Step m (bind_identity r subject m)
    posts : (request : SendRequest) → Step m (record m { posts = m.posts ++ request ∷ [] })
    observes_connect : (callback : ℕ) → Step m (register_on_connect callback m)
    observes_disconnect : (callback : ℕ) → Step m (register_on_disconnect callback m)

  pub data Steps (m : Manager) : Manager → Type 0 where
    done : Steps m m
    next : {n o : Manager} → Steps m n → Step n o → Steps m o

  pub Steps-trans : {m n o : Manager} → Steps m n → Steps n o → Steps m o
  Steps-trans r done = r
  Steps-trans r (next s st) = next (Steps-trans r s) st

  Step-IsCoherent : {m n : Manager} → Step m n → IsCoherent owner m → IsCoherent owner n
  unfolding register_on_connect register_on_disconnect
  Step-IsCoherent {m} (registers t url) v = register-IsCoherent owner t url m v
  Step-IsCoherent {m} (unregisters t) v = unregister-IsCoherent owner t m v
  Step-IsCoherent {m} (forgets t) v = forget-IsCoherent owner t m v
  Step-IsCoherent {m} (binds r subject) v = bind_identity-IsCoherent owner r subject m v
  Step-IsCoherent (posts request) v = record {
    forward = v.forward;
    owned = v.owned;
    distinct = v.distinct;
  }
  Step-IsCoherent (observes_connect callback) v = record {
    forward = v.forward;
    owned = v.owned;
    distinct = v.distinct;
  }
  Step-IsCoherent (observes_disconnect callback) v = record {
    forward = v.forward;
    owned = v.owned;
    distinct = v.distinct;
  }

  -- If the gateway issues each token for one request id only, then after any interleaving of the
  -- locked sections of any calls, late clean-ups included, every connection is found again from
  -- its token, every token is mapped to its own request id, and no request id stands twice.
  pub Steps-IsCoherent : {m n : Manager} → Steps m n → IsCoherent owner m → IsCoherent owner n
  Steps-IsCoherent done v = v
  Steps-IsCoherent (next r st) v = Step-IsCoherent st (Steps-IsCoherent r v)

  abbrev IsOwned : String × String → Type 0
  IsOwned p = owner p.1 ≡ p.0

  tokens_to_send-IsOwned :
      (target : Option String) (m : Manager)
      → IsCoherent owner m
      → All IsOwned (tokens_to_send target m)
  unfolding tokens_to_send
  tokens_to_send-IsOwned target m v = All-map IsOwned _ _ (
      All-select _ _ m.connections (
        All-items (λ p. owner (p.1).token ≡ p.0) m.connections v.distinct
          (λ r c e. (v.forward r c e).1)))

  module _ (env : Env) where
    conclude-Steps :
        (o : Outcome) (t r : String) (m : Manager)
        → owner t ≡ r
        → Steps m (conclude env o t (some r) m).1
    unfolding conclude
    conclude-Steps request_exception t r m e = done
    conclude-Steps (status code) t r m e = elim (Bool-cases (code == 404)) [
      | inl gone ↦ rw gone (elim (Bool-cases (truthy r)) [
        | inl named ↦ rw named (subst (λ q. Steps m (forget q t m)) e (next done (forgets t)))
        | inr unnamed ↦ rw unnamed done
      ])
      | inr other ↦ rw other done
    ]

    send_event_to_token-Steps :
        (t : String) (event_data : Json) (event_name r : String) (m : Manager)
        → owner t ≡ r
        → Steps m (send_event_to_token env t event_data event_name (some r) m).1
    unfolding send_event_to_token
    send_event_to_token-Steps t event_data event_name r m e =
        let request = event_request env t event_data event_name in
        let (answer, m') = post env request m in
        Steps-trans (next done (posts request)) (conclude-Steps answer t r m' e)

    send_each-Steps :
        (ps : List (String × String)) (k : ℕ) (event_data : Json) (event_name : String)
        (m : Manager)
        → All IsOwned ps
        → Steps m (send_each env k event_data event_name ps m).1
    unfolding send_each
    send_each-Steps [] k event_data event_name m h = done
    send_each-Steps ((r, t) ∷ ps) k event_data event_name m h =
        let (sent, m') = send_event_to_token env t event_data event_name (some r) m in
        Steps-trans (send_event_to_token-Steps t event_data event_name r m h.0)
          (send_each-Steps ps (if sent then suc k else k) event_data event_name m' h.1)

    broadcast-Steps :
        (ps : List (String × String)) (event_data : Json) (event_name : String) (m : Manager)
        → All IsOwned ps
        → Steps m (broadcast env event_data event_name ps m).1
    unfolding broadcast
    broadcast-Steps [] event_data event_name m h = done
    broadcast-Steps (p ∷ ps) event_data event_name m h =
        send_each-Steps (p ∷ ps) 0 event_data event_name m h

    -- `send_event`, targeted or broadcast, is a run of such steps.
    pub send_event-Steps :
        (r target : Option String) (event_data : Json) (event_name : String) (m : Manager)
        → IsCoherent owner m
        → Steps m (send_event env r event_data event_name target m).1
    unfolding send_event
    send_event-Steps none target event_data event_name m v =
        broadcast-Steps (tokens_to_send target m) event_data event_name m
          (tokens_to_send-IsOwned target m v)
    send_event-Steps (some r) target event_data event_name m v =
        elim (Option-cases (get m.connections r)) [
          | inl e ↦ rw (e, send_event) done
          | inr (c, e) ↦
              rw (e, send_event)
                (send_event_to_token-Steps c.token event_data event_name r m (v.forward r c e).1)
        ]

    module _
        (calls : (callback : ℕ) (r : String) (m : Manager)
          → IsCoherent owner m
          → Steps m (env.invoke callback r m).1) where
      notify-Steps :
          (callbacks : List ℕ) (r : String) (m : Manager)
          → IsCoherent owner m
          → Steps m (notify env callbacks r m)
      unfolding notify
      notify-Steps [] r m v = done
      notify-Steps (c ∷ cs) r m v =
          Steps-trans (calls c r m v)
            (notify-Steps cs r (env.invoke c r m).1 (Steps-IsCoherent (calls c r m v) v))

      close_old-Steps : (old : Option String) (m : Manager) → Steps m (close_old env old m)
      unfolding close_connection_internal
      close_old-Steps none m = done
      close_old-Steps (some t) m = elim (Bool-cases (truthy t)) [
        | inl named ↦ rw named (next done (posts _))
        | inr unnamed ↦ rw unnamed done
      ]

      -- `on_connect` is a run of such steps, if the callbacks are.
      pub on_connect-Steps :
          (t url : String) (m : Manager)
          → IsCoherent owner m
          → Steps m (on_connect env (owner t) t url m)
      unfolding on_connect
      on_connect-Steps t url m v =
          let (old, m₁) = register (owner t) t url m in
          let m₂ = close_old env old m₁ in
          let before : Steps m m₂ =
            Steps-trans (next done (registers t url)) (close_old-Steps old m₁) in
          Steps-trans before
            (notify-Steps m₂.on_connect_callbacks (owner t) m₂ (Steps-IsCoherent before v))

      report-Steps :
          (gone : Option String) (m : Manager) → IsCoherent owner m → Steps m (report env gone m)
      report-Steps none m v = done
      report-Steps (some r) m v = notify-Steps m.on_disconnect_callbacks r m v

      -- So is `on_disconnect`.
      pub on_disconnect-Steps :
          (t : String) (m : Manager) → IsCoherent owner m → Steps m (on_disconnect env t m)
      unfolding on_disconnect
      on_disconnect-Steps t m v =
          let (gone, m') = unregister t m in
          let before : Steps m m' = next done (unregisters t) in
          Steps-trans before (report-Steps gone m' (Steps-IsCoherent before v))
