-- ===== src/FrontendVersion/Closing.antt =====
-- The frontend version service from its start to the end of the shutdown. A call of
-- `queue_version_event` is two locked sections, and anything may run between them.
use zigbee_control.Prelude.{
  ◌≡◌, refl, sym, ◌∙◌, ap, subst, ◌⊎◌, inl, inr, ℕ, String, true, false, Option, none, some, List,
  [], ◌∷◌, ◌++◌, get_elem?, All, All-append, All-split, All-listed, Bool-cases, Option-cases, ◌==◌,
  ==-iff, string_eq,
}
use mathlib.Core.Option.{some-injective}
use zigbee_control.Json.{Json}
use zigbee_control.Dict.{get, get-put}
use zigbee_control.Lifecycle.{LifecycleEvent, startup, prepare_shutdown, shutdown, after_shutdown}
use zigbee_control.Lifecycle.Hearing.{
  Hears, quiet, moves, told, whole_life, Hears-first, Hears-keeps, Hears-trans,
}
use zigbee_control.Sse.{Manager, Env}
use zigbee_control.Sse.Sending.{send_event}
use zigbee_control.FrontendVersion.{
  FrontendVersionService, Fetched, fetch_frontend_version, event_payload, store_pending,
  broadcast_version, on_connect_callback, queue_version_event, handle_lifecycle_event,
}
use zigbee_control.FrontendVersion.Pending.{pending_or-payload}

-- A call of `queue_version_event`.
pub record QueueCall : Type 0 where
  pub request_id : String
  pub version : String
  pub changelog : Option String

abbrev pub payload_of : QueueCall → Json
payload_of call = event_payload call.version call.changelog

-- The service with the calls that have passed the test and have not yet stored their version.
abbrev pub Serving : Type 0
Serving = List QueueCall × FrontendVersionService

-- The test of a call, its store, and any use of the manager: the broadcast of a call, or what a
-- client that connects is sent.
pub data Moves (p : Serving) : Serving → Type 0 where
  admits : (call : QueueCall) → p.1.is_shutting_down ≡ false → Moves p (call ∷ p.0, p.1)
  shares : (m : Manager) → Moves p (p.0, record p.1 { sse = m })
  stores :
      (before : List QueueCall) (call : QueueCall) (after : List QueueCall)
      → p.0 ≡ before ++ call ∷ after
      → Moves p (before ++ after, store_pending call.request_id (payload_of call) p.1)

abbrev pub tell : LifecycleEvent → Serving → Serving
tell event p = (p.0, handle_lifecycle_event event p.1)

abbrev pub IsOneOf : List QueueCall → QueueCall → Type 0
IsOneOf calls call = (i : ℕ) × (get_elem? calls i ≡ some call)

module _ (late : List QueueCall) where
  -- From PREPARE_SHUTDOWN on: the calls under way are among those that were so then.
  IsClosing : Serving → Type 0
  IsClosing p = (p.1.is_shutting_down ≡ true) × All (IsOneOf late) p.0

  -- From SHUTDOWN on: a pending version is that of such a call.
  IsClosed : Serving → Type 0
  IsClosed p =
      (p.1.is_shutting_down ≡ true)
      × All (IsOneOf late) p.0
      × ((r : String) (payload : Json)
          → get p.1.pending_version r ≡ some payload
          → (call : QueueCall) × IsOneOf late call
            × (call.request_id ≡ r)
            × (payload_of call ≡ payload))

  rest-All :
      (before after : List QueueCall) {calls : List QueueCall} {call : QueueCall}
      → calls ≡ before ++ call ∷ after
      → All (IsOneOf late) calls
      → IsOneOf late call × All (IsOneOf late) (before ++ after)
  rest-All before after {call = call} e h =
      let (front, back) =
        All-split (IsOneOf late) before (call ∷ after) (subst (All (IsOneOf late)) e h) in
      (back.0, All-append (IsOneOf late) before after front back.1)

  Moves-IsClosing : (p q : Serving) → Moves p q → IsClosing p → IsClosing q
  unfolding IsClosing
  Moves-IsClosing p q (admits call free) c = absurd (cc (free, c.0))
  Moves-IsClosing p q (shares m) c = c
  Moves-IsClosing p q (stores before call after e) c = (c.0, (rest-All before after e c.1).1)

  Moves-IsClosed : (p q : Serving) → Moves p q → IsClosed p → IsClosed q
  unfolding IsClosed
  Moves-IsClosed p q (admits call free) c = absurd (cc (free, c.0))
  Moves-IsClosed p q (shares m) c = c
  Moves-IsClosed p q (stores before call after e) (closing, under_way, pending) =
      let (known, rest) = rest-All before after e under_way in
      (
        closing,
        rest,
        λ r payload h.
            let at = get-put p.1.pending_version call.request_id r (payload_of call) in
            elim (Bool-cases (call.request_id == r)) [
              | inl same ↦ (
                call,
                known,
                (==-iff call.request_id r).0 same,
                some-injective _ _ (rw (at, same) at h),
              )
              | inr other ↦ pending r payload (rw (at, other) at h)
            ],
      )

  told-IsClosing : (event : LifecycleEvent) (p : Serving) → IsClosing p → IsClosing (tell event p)
  unfolding IsClosing handle_lifecycle_event
  told-IsClosing startup p c = c
  told-IsClosing prepare_shutdown p c = (refl, c.1)
  told-IsClosing shutdown p c = c
  told-IsClosing after_shutdown p c = c

  told-IsClosed : (event : LifecycleEvent) (p : Serving) → IsClosed p → IsClosed (tell event p)
  unfolding IsClosed handle_lifecycle_event get
  told-IsClosed startup p c = c
  told-IsClosed prepare_shutdown p c = (refl, c.1, c.2)
  told-IsClosed shutdown p (closing, under_way, pending) = (closing, under_way, λ r payload h. cc)
  told-IsClosed after_shutdown p c = c

  cleared-IsClosed : (p : Serving) → IsClosing p → IsClosed (tell shutdown p)
  unfolding IsClosing IsClosed handle_lifecycle_event get
  cleared-IsClosed p (closing, under_way) = (closing, under_way, λ r payload h. cc)

module _ (env : Env) where
  -- A call without any other in between is a run of these steps.
  queue_version_event-Moves :
      (call : QueueCall) (calls : List QueueCall) (s : FrontendVersionService)
      → s.is_shutting_down ≡ false
      → Hears Moves tell
          (calls, s)
          []
          (calls, (queue_version_event env call.request_id call.version call.changelog s).1)
  unfolding queue_version_event
  queue_version_event-Moves call calls s free =
      let payload = payload_of call in
      let whole : store_pending call.request_id payload (broadcast_version env payload s)
          ≡ (queue_version_event env call.request_id call.version call.changelog s).1 =
        rw (free, queue_version_event) refl in
      subst (λ t. Hears Moves tell (calls, s) [] (calls, t)) whole
        (moves (admits call free) (
          moves (shares (broadcast_version env payload s).sse)
            (moves (stores [] call calls refl) quiet)))

  -- What a client that connects is sent: what the version file says, or the version of one of the
  -- calls.
  abbrev pub IsSent : List QueueCall → FrontendVersionService → String → Fetched → Type 0
  IsSent late s r fetched =
      let sent = (on_connect_callback env fetched r s).sse in
      (sent ≡ (send_event env (some r) (fetch_frontend_version fetched) "version" none s.sse).1)
      ⊎ ((call : QueueCall) × IsOneOf late call
          × (call.request_id ≡ r)
          × (sent ≡ (send_event env (some r) (payload_of call) "version" none s.sse).1))

  -- `(late, u)` is the state in which PREPARE_SHUTDOWN was told.
  abbrev pub Forgets : Serving → Serving → Type 0
  Forgets p q =
      ((r version : String) (changelog : Option String)
        → queue_version_event env r version changelog q.1 ≡ (false, q.1))
      × (late : List QueueCall) × (u : FrontendVersionService) × Hears Moves tell p (startup ∷ [])
          (late, u)
      × Hears Moves tell (tell prepare_shutdown (late, u)) (shutdown ∷ after_shutdown ∷ []) q
      × ((r : String) (fetched : Fetched) → IsSent late q.1 r fetched)

  IsClosed-IsSent :
      (late : List QueueCall) (q : Serving) (r : String) (fetched : Fetched)
      → IsClosed late q
      → IsSent late q.1 r fetched
  unfolding IsClosed on_connect_callback
  IsClosed-IsSent late q r fetched (closing, under_way, pending) =
      elim (Option-cases (get q.1.pending_version r)) [
        | inl e ↦ inl (rw e refl)
        | inr (payload, e) ↦
            let (call, known, at, same) = pending r payload e in
            let stored = e ∙ ap some (sym same) in
            inr (call, known, at, simp (stored, pending_or-payload) refl)
      ]

  IsClosed-queue_version_event :
      (late : List QueueCall) (q : Serving) (r version : String) (changelog : Option String)
      → IsClosed late q
      → queue_version_event env r version changelog q.1 ≡ (false, q.1)
  unfolding IsClosed queue_version_event
  IsClosed-queue_version_event late q r version changelog c = simp c.0 refl

  pub whole_life-Forgets : {p q : Serving} → Hears Moves tell p whole_life q → Forgets p q
  unfolding IsClosing handle_lifecycle_event
  whole_life-Forgets {p} {q} life =
      let (young, before, rest) = Hears-first Moves tell life in
      let ((late, u), between, rest') = Hears-first Moves tell rest in
      let (stopping, wait, rest'') = Hears-first Moves tell rest' in
      let closing : IsClosing late stopping =
        Hears-keeps Moves tell (IsClosing late) (Moves-IsClosing late) (told-IsClosing late) wait
          (refl, All-listed (IsOneOf late) late (λ i call e. (i, e))) in
      let closed : IsClosed late q =
        Hears-keeps Moves tell (IsClosed late) (Moves-IsClosed late) (told-IsClosed late) rest''
          (cleared-IsClosed late stopping closing) in
      (
        (λ r version changelog. IsClosed-queue_version_event late q r version changelog closed),
        late,
        u,
        Hears-trans Moves tell before (told startup between),
        rest',
        (λ r fetched. IsClosed-IsSent late q r fetched closed),
      )
