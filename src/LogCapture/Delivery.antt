-- ===== src/LogCapture/Delivery.antt =====
-- What a client of the log receives while the handler and the other clients go on in any order.
use zigbee_control.Prelude.{
  ◌≡◌, refl, ◌∙◌, sym, ap, ◌≢◌, inl, inr, ℕ, String, false, Option, none, some, List, [], ◌∷◌, ◌++◌,
  if◌then◌else◌, arith, ◌==◌, ==-iff, ==-refl, nat_eq, string_eq, Bool-cases, Option-cases,
  contains, All,
}
use mathlib.Core.List.{append_assoc, append-nil}
use zigbee_control.Dict.{get}
use zigbee_control.Json.{Fields}
use zigbee_control.Lifecycle.{startup, prepare_shutdown, shutdown, after_shutdown}
use zigbee_control.LogCapture.{LogEvent, format_log_record, connection_close, emit}
use zigbee_control.LogCapture.Clients.{
  World, SseLogClient, new_client, put_event, enter, get_events, Action, enters, closes, drains,
  logs, hears, step,
}
use zigbee_control.LogCapture.Opened.{
  IsOpen, with_event, broadcast-IsOpen, enter-IsOpen, enter_other-IsOpen, close_other-IsOpen,
  drain_other-IsOpen, drain-IsOpen,
}

joined :
    (out later kept after before sent rest : List LogEvent)
    → out ++ kept ≡ before ++ sent
    → later ++ after ≡ kept ++ rest
    → (out ++ later) ++ after ≡ before ++ (sent ++ rest)
joined out later kept after before sent rest first second =
    append_assoc out later after
    ∙ ap (◌++◌ out) second
    ∙ sym (append_assoc out kept rest)
    ∙ ap (λ (front : List LogEvent). front ++ rest) first
    ∙ append_assoc before sent rest

-- The action neither closes the client nor makes a client under its number.
abbrev pub Keeps : (client : ℕ) → Action → Type 0
Keeps client (enters j) = j ≢ client
Keeps client (closes j) = j ≢ client
Keeps client (drains j) = Unit
Keeps client (logs correlation_id r) = Unit
Keeps client (hears event) = Unit

abbrev log_event : Option Fields → List LogEvent
log_event none = []
log_event (some log_data) = record { event_type = "log"; data_fields = log_data } ∷ []

module _ (isoformat : ℕ → String) where
  -- The event that the handler sends, if the action sends one.
  abbrev pub sent_by : Action → List LogEvent
  sent_by (logs correlation_id r) = log_event (format_log_record isoformat correlation_id r)
  sent_by (hears shutdown) = connection_close put_event ∷ []
  sent_by (hears startup) = []
  sent_by (hears prepare_shutdown) = []
  sent_by (hears after_shutdown) = []
  sent_by (enters j) = []
  sent_by (closes j) = []
  sent_by (drains j) = []

  abbrev pub sent_in : List Action → List LogEvent
  sent_in [] = []
  sent_in (a ∷ actions) = sent_by a ++ sent_in actions

  abbrev pub run : List Action → World → World
  run [] w = w
  run (a ∷ actions) w = run actions (step isoformat a w)

  module _ (client : ℕ) where
    -- What the client takes out of its buffer.
    abbrev pub taken_by : Action → World → List LogEvent
    taken_by (drains j) w = if j == client then (get_events j w).0 else []
    taken_by (enters j) w = []
    taken_by (closes j) w = []
    taken_by (logs correlation_id r) w = []
    taken_by (hears event) w = []

    abbrev pub taken_in : List Action → World → List LogEvent
    taken_in [] w = []
    taken_in (a ∷ actions) w = taken_by a w ++ taken_in actions (step isoformat a w)

    abbrev Delivers : SseLogClient → List LogEvent → List LogEvent → World → Type 0
    Delivers c out sent w' =
        (c' : SseLogClient) × IsOpen client c' w' × (out ++ c'.events ≡ c.events ++ sent)

    unchanged : {c : SseLogClient} {w : World} → IsOpen client c w → Delivers c [] [] w
    unchanged {c} o = (c, o, sym (append-nil c.events))

    step-Delivers :
        (a : Action) (c : SseLogClient) (w : World)
        → Keeps client a
        → IsOpen client c w
        → Delivers c (taken_by a w) (sent_by a) (step isoformat a w)
    unfolding step
    step-Delivers (enters j) c w other o = unchanged (enter_other-IsOpen client c j w other o)
    step-Delivers (closes j) c w other o = unchanged (close_other-IsOpen client c j w other o)
    step-Delivers (drains j) c w _ o = elim (Bool-cases (j == client)) [
      | inl same ↦ rw ((==-iff j client).0 same) (
          rw (==-refl client) (
            let (o', all) = drain-IsOpen client c w o in
            (record c { events = [] }, o', append-nil _ ∙ all ∙ sym (append-nil c.events))))
      | inr other ↦
          rw other
            (unchanged (drain_other-IsOpen client c j w (λ e. ground (arith, ==-iff j client)) o))
    ]
    step-Delivers (logs correlation_id r) c w _ o =
        elim (Option-cases (format_log_record isoformat correlation_id r)) [
          | inl raised ↦ rw (raised, emit) (unchanged o)
          | inr (log_data, formatted) ↦
              let event : LogEvent = record { event_type = "log"; data_fields = log_data } in
              rw (formatted, emit) (with_event c event, broadcast-IsOpen client c event w o, refl)
        ]
    step-Delivers (hears startup) c w _ o = unchanged o
    step-Delivers (hears prepare_shutdown) c w _ o = unchanged o
    step-Delivers (hears after_shutdown) c w _ o = unchanged o
    step-Delivers (hears shutdown) c w _ o = (
      with_event c (connection_close put_event),
      broadcast-IsOpen client c (connection_close put_event) w o,
      refl,
    )

    run-Delivers :
        (actions : List Action) (c : SseLogClient) (w : World)
        → All (Keeps client) actions
        → IsOpen client c w
        → Delivers c (taken_in actions w) (sent_in actions) (run actions w)
    run-Delivers [] c w _ o = unchanged o
    run-Delivers (a ∷ actions) c w (keeps, rest) o =
        let (c', o', first) = step-Delivers a c w keeps o in
        let (c'', o'', later) = run-Delivers actions c' (step isoformat a w) rest o' in
        (
          c'',
          o'',
          joined (taken_by a w) (taken_in actions (step isoformat a w)) c'.events c''.events
              c.events (sent_by a) (sent_in actions) first later,
        )

    -- A client of the log that is entered, and not closed afterwards, gets every event that the handler
    -- sends from then on, once and in order: what it took out of its buffer and what is left there are
    -- together these events, whatever the other clients do.
    pub enter-Delivers :
        (actions : List Action) (w : World)
        → contains w.0.clients client ≡ false
        → All (Keeps client) actions
        → let w' = enter client w in
          (c : SseLogClient) × (get (run actions w').1 client ≡ some c)
          × (taken_in actions w' ++ c.events ≡ sent_in actions)
    enter-Delivers actions w fresh keep =
        let (c, o, all) =
          run-Delivers actions new_client (enter client w) keep (enter-IsOpen client w fresh) in
        (c, o.stored, all)
