-- ===== src/Sse/Callback/Admission.antt =====
-- Which calls of the gateway reach the manager, and what they make of it.
use zigbee_control.Prelude.{
  ◌≡◌, refl, subst, ◌⊎◌, inl, inr, ℕ, String, true, false, Option, none, some, List, [], ◌∷◌, arith,
  Bool-cases, truthy, ◌==◌, ==-iff, string_eq,
}
use zigbee_control.Prelude.Results.{Result}
use zigbee_control.Prelude.Texts.{has_char}
use zigbee_control.Json.{Json, text, object, Fields}
use zigbee_control.Settings.{Settings, is_production}
use zigbee_control.Auth.Tokens.{AuthenticationException, AuthContext, find_field}
use zigbee_control.Sse.{Manager, Env}
use zigbee_control.Sse.Sending.{on_connect, on_disconnect}
use zigbee_control.Sse.Coherence.{IsCoherent}
use zigbee_control.Sse.Interleaving.{
  Steps, done, Steps-trans, Steps-IsCoherent, on_connect-Steps, on_disconnect-Steps,
}
use zigbee_control.Sse.Callback.Identity.{Bound-Steps, bind_callback_identity-Bound}
use zigbee_control.Sse.Callback.{
  ConnectCallback, DisconnectCallback, Body, unsupported_media_type, bad_request, parsed, Reply,
  success, failure, CallbackError, unauthorized, authenticate_callback, connect, connect_with,
  handle_connect, handle_disconnect, handle_action, handle_payload, handle_callback,
}

authenticate_callback_production :
    (secret : Option String) (settings : Settings)
    → is_production settings ≡ true
    → authenticate_callback secret settings ≡ true
    → (secret ≡ some settings.sse_callback_secret) × (truthy settings.sse_callback_secret ≡ true)
unfolding authenticate_callback
authenticate_callback_production none settings p h = absurd (ground arith)
authenticate_callback_production (some secret) settings p h =
    ground (arith, ==-iff secret settings.sse_callback_secret)

module _ (env : Env) (validate : String → Result AuthenticationException AuthContext)
    (settings : Settings) (connect_callback : Fields → Option ConnectCallback)
    (disconnect_callback : Fields → Option DisconnectCallback)
    (request_ids : (url : String) → Option (List String)) where
  abbrev callback : Option String → Body → Manager → Reply × Manager
  callback = handle_callback env validate settings connect_callback disconnect_callback request_ids

  -- In production a call is answered with 401 and changes nothing, unless a secret is configured
  -- and the call carries it.
  pub handle_callback-IsAuthentic :
      (secret : Option String) (body : Body) (m : Manager)
      → is_production settings ≡ true
      → handle_callback env validate settings connect_callback disconnect_callback request_ids
            secret body m
          ≡ (failure unauthorized, m)
        ⊎ ((secret ≡ some settings.sse_callback_secret)
            × (truthy settings.sse_callback_secret ≡ true))
  unfolding handle_callback
  handle_callback-IsAuthentic secret body m p =
      elim (Bool-cases (authenticate_callback secret settings)) [
        | inl e ↦ inr (authenticate_callback_production secret settings p e)
        | inr e ↦ inl (rw (e, handle_callback) refl)
      ]

  -- What a call can end in.
  pub data Handled (m : Manager) : Reply × Manager → Type 0 where
    rejected : (e : CallbackError) → Handled m (failure e, m)
    connected :
        (payload : Fields) (c : ConnectCallback) (r : String) (rest : List String)
        → connect_callback payload ≡ some c
        → request_ids c.request.url ≡ some (r ∷ rest)
        → has_char 58 r ≡ false
        → Handled m
            (connect env validate settings connect_callback disconnect_callback request_ids r c m)
    disconnected : (token : String) → Handled m (success, on_disconnect env token m)

  connect_with-Handled :
      (payload : Fields) (c : ConnectCallback) (ids : Option (List String)) (m : Manager)
      → connect_callback payload ≡ some c
      → request_ids c.request.url ≡ ids
      → Handled m (
          connect_with env validate settings connect_callback disconnect_callback request_ids ids c
            m)
  connect_with-Handled payload c none m h e = rejected _
  connect_with-Handled payload c (some []) m h e = rejected _
  connect_with-Handled payload c (some (r ∷ rs)) m h e = elim (Bool-cases (truthy r)) [
    | inl named ↦ elim (Bool-cases (has_char 58 r)) [
      | inl colon ↦ rw named (rw colon (rejected _))
      | inr plain ↦ rw named (rw plain (connected payload c r rs h e plain))
    ]
    | inr unnamed ↦ rw unnamed (rejected _)
  ]

  handle_connect-Handled :
      (payload : Fields) (o : Option ConnectCallback) (m : Manager)
      → connect_callback payload ≡ o
      → Handled m (
          handle_connect env validate settings connect_callback disconnect_callback request_ids o m)
  handle_connect-Handled payload none m h = rejected _
  handle_connect-Handled payload (some c) m h =
      connect_with-Handled payload c (request_ids c.request.url) m h refl

  handle_disconnect-Handled :
      (o : Option DisconnectCallback) (m : Manager)
      → Handled m (
          handle_disconnect env validate settings connect_callback disconnect_callback request_ids o
            m)
  handle_disconnect-Handled none m = rejected _
  handle_disconnect-Handled (some c) m = disconnected c.token

  handle_action-Handled :
      (action : Option Json) (payload : Fields) (m : Manager)
      → Handled m (
          handle_action env validate settings connect_callback disconnect_callback request_ids
            action payload m)
  handle_action-Handled none payload m = rejected _
  handle_action-Handled (some (text action)) payload m = elim (Bool-cases (action == "connect")) [
    | inl e ↦ rw e (handle_connect-Handled payload (connect_callback payload) m refl)
    | inr e ↦ elim (Bool-cases (action == "disconnect")) [
      | inl f ↦ rw e (rw f (handle_disconnect-Handled (disconnect_callback payload) m))
      | inr f ↦ rw e (rw f (rejected _))
    ]
  ]
  handle_action-Handled (some _) payload m = rejected _

  handle_payload-Handled :
      (body : Body) (m : Manager)
      → Handled m (
          handle_payload env validate settings connect_callback disconnect_callback request_ids body
            m)
  handle_payload-Handled unsupported_media_type m = rejected _
  handle_payload-Handled bad_request m = rejected _
  handle_payload-Handled (parsed (object payload)) m =
      handle_action-Handled (find_field "action" payload) payload m
  handle_payload-Handled (parsed _) m = rejected _

  handle_callback-Handled :
      (secret : Option String) (body : Body) (m : Manager) → Handled m (callback secret body m)
  unfolding handle_callback
  handle_callback-Handled secret body m =
      elim (Bool-cases (authenticate_callback secret settings)) [
        | inl e ↦ rw (e, handle_callback) (handle_payload-Handled body m)
        | inr e ↦ rw (e, handle_callback) (rejected _)
      ]

  Handled-failure :
      {m : Manager} {out : Reply × Manager} (e : CallbackError)
      → Handled m out
      → out.0 ≡ failure e
      → out.1 ≡ m
  unfolding connect
  Handled-failure e (rejected f) h = refl
  Handled-failure e (connected payload c r rest v i p) h = cc
  Handled-failure e (disconnected token) h = cc

  -- A call that is answered with an error has changed nothing.
  pub handle_callback_failure :
      (secret : Option String) (body : Body) (m : Manager) (e : CallbackError)
      → (handle_callback env validate settings connect_callback disconnect_callback request_ids
          secret body m).0
        ≡ failure e
      → (handle_callback env validate settings connect_callback disconnect_callback request_ids
          secret body m).1
        ≡ m
  handle_callback_failure secret body m e =
      Handled-failure e (handle_callback-Handled secret body m)

  module _ (owner : String → String)
      (issued : (payload : Fields) (c : ConnectCallback) (r : String) (rest : List String)
        → connect_callback payload ≡ some c
        → request_ids c.request.url ≡ some (r ∷ rest)
        → owner c.token ≡ r)
      (calls : (number : ℕ) (r : String) (m : Manager)
        → IsCoherent owner m
        → Steps owner m (env.invoke number r m).1) where
    Handled-Steps :
        {m : Manager} {out : Reply × Manager}
        → IsCoherent owner m
        → Handled m out
        → Steps owner m out.1
    unfolding connect
    Handled-Steps v (rejected e) = done
    Handled-Steps {m} v (connected payload c r rest accepted named plain) =
        let url = c.request.url in
        let run =
          subst (λ q. Steps owner m (on_connect env q c.token url m))
            (issued payload c r rest accepted named)
            (on_connect-Steps owner env calls c.token url m v) in
        Steps-trans owner run (
          Bound-Steps env validate settings owner
            (bind_callback_identity-Bound env validate settings r c.request.headers _))
    Handled-Steps {m} v (disconnected token) = on_disconnect-Steps owner env calls token m v

    -- If the gateway issues each token for one request id only, and the registered callbacks run
    -- the manager's own sections, then every call of the gateway, with the binding of the identity,
    -- is a run of such sections, and the mappings are coherent after it if they were before.
    pub handle_callback-IsCoherent :
        (secret : Option String) (body : Body) (m : Manager)
        → IsCoherent owner m
        → let out =
            handle_callback env validate settings connect_callback disconnect_callback request_ids
              secret body m in
          Steps owner m out.1 × IsCoherent owner out.1
    handle_callback-IsCoherent secret body m v =
        let run = Handled-Steps v (handle_callback-Handled secret body m) in
        (run, Steps-IsCoherent owner run v)
