-- ===== src/LogCapture/Stream/Ending.antt =====
-- What a browser reads off the log stream, up to its end at a shutdown.
use Prim.Native.String.{◌++◌ as append}
use zigbee_control.Prelude.{
  ◌≡◌, refl, ap, ◌∙◌, ℕ, String, Bool, true, false, not, Option, none, List, [], ◌∷◌, ◌++◌, map,
  ◌==◌, string_eq, Bool-cases, inl, inr, select, All,
}
use zigbee_control.Json.{Json, text, object, end, field}
use zigbee_control.LogCapture.{LogEvent}
use zigbee_control.LogCapture.Framing.{
  dict, with_correlation, read_stream, NoBreak, read_stream-format, data_text,
}
use zigbee_control.LogCapture.Stream.{
  Wake, Output, item, empty, log_loop, log_stream, event_text, heartbeat, is_due, opening,
}

abbrev pub joined_texts : List String → String
joined_texts [] = ""
joined_texts (t ∷ texts) = append t (joined_texts texts)

-- The events that were taken off the queue.
abbrev pub items : List Wake → List LogEvent
items [] = []
items (item e ∷ wakes) = e ∷ items wakes
items (empty now ∷ wakes) = items wakes

-- The type of the event is a line of its own, and no heartbeat.
abbrev pub IsPlain : LogEvent → Type 0
IsPlain e = NoBreak e.event_type × (e.event_type == "heartbeat" ≡ false)

abbrev pub is_closing : LogEvent → Bool
is_closing e = e.event_type == "connection_close"

abbrev pub StaysOpen : List LogEvent → Type 0
StaysOpen events = All (λ e. is_closing e ≡ false) events

-- What a browser is told besides the heartbeats.
abbrev pub logged : String → List (String × String)
logged stream = select (λ p. not (p.0 == "heartbeat")) (read_stream stream)

-- The waits from the announcement of the shutdown on: no wait is empty before the queue is.
abbrev pub ending : LogEvent → (more : List LogEvent) → (now : ℕ) → (rest : List Wake) → List Wake
ending closing more now rest = item closing ∷ (map item more ++ empty now ∷ rest)

module _ (dumps : Json → String) (correlation_id : Option String) where
  abbrev pub shown : LogEvent → String × String
  shown e = (e.event_type, dumps (object (with_correlation correlation_id e.data_fields)))

  abbrev pub opened : String × String
  opened = (
    "connection_open",
    dumps (object (with_correlation correlation_id (field "status" (text "connected") end))),
  )

module _ (dumps : Json → String) (number : ℕ → Json) (correlation_id : Option String)
    (one_line : (j : Json) → NoBreak (dumps j)) where
  logged-event :
      (e : LogEvent) (rest : String)
      → IsPlain e
      → logged (append (event_text dumps number correlation_id e) rest)
        ≡ shown dumps correlation_id e ∷ logged rest
  unfolding data_text with_correlation
  logged-event e rest (clean, plain) =
      rw
        (read_stream-format dumps e.event_type
          (dict (with_correlation correlation_id e.data_fields)) none rest clean (one_line _))
        (rw plain refl)

  logged-heartbeat :
      (now : ℕ) (rest : String)
      → logged (append (heartbeat dumps number correlation_id now) rest) ≡ logged rest
  unfolding data_text
  logged-heartbeat now rest =
      rw
        (read_stream-format dumps "heartbeat" (dict (field "timestamp" (number now) end))
          correlation_id rest refl (one_line _))
        refl

  logged-opening :
      (rest : String)
      → logged (append (opening dumps number correlation_id) rest)
        ≡ opened dumps correlation_id ∷ logged rest
  unfolding data_text
  logged-opening rest =
      rw
        (read_stream-format dumps "connection_open" (dict (field "status" (text "connected") end))
          correlation_id rest refl (one_line _))
        refl

  -- The loop after the shutdown was announced.
  log_loop_closing :
      (more : List LogEvent) (now last : ℕ) (rest : List Wake)
      → log_loop dumps number correlation_id (map item more ++ empty now ∷ rest) true last
        ≡ (map (event_text dumps number correlation_id) more, true)
  unfolding log_loop
  log_loop_closing [] now last rest = refl
  log_loop_closing (e ∷ more) now last rest = rw (log_loop_closing more now last rest) refl

  logged-events :
      (events : List LogEvent)
      → All IsPlain events
      → logged (joined_texts (map (event_text dumps number correlation_id) events))
        ≡ map (shown dumps correlation_id) events
  unfolding read_stream
  logged-events [] h = refl
  logged-events (e ∷ events) (plain, h) =
      logged-event e (joined_texts (map (event_text dumps number correlation_id) events)) plain
      ∙ ap (◌∷◌ (shown dumps correlation_id e)) (logged-events events h)

  module _ (closing : LogEvent) (closes : is_closing closing ≡ true)
      (plain_closing : IsPlain closing) (more : List LogEvent) (plain_more : All IsPlain more)
      (now : ℕ) (rest : List Wake) where
    abbrev Ends : Output → List LogEvent → Type 0
    Ends (texts, ended) events =
        (ended ≡ true) × (logged (joined_texts texts) ≡ map (shown dumps correlation_id) events)

    log_loop-Ends :
        (wakes : List Wake) (last : ℕ)
        → StaysOpen (items wakes)
        → All IsPlain (items wakes)
        → Ends
            (log_loop dumps number correlation_id
              (wakes ++ ending closing more now rest)
              false
              last)
            (items wakes ++ closing ∷ more)
    unfolding log_loop
    log_loop-Ends [] last open_still plain = rw closes (
        rw (log_loop_closing more now last rest)
          (refl, logged-events (closing ∷ more) (plain_closing, plain_more)))
    log_loop-Ends (item e ∷ wakes) last (open_here, open_later) (plain_here, plain_later) =
        let (ends, told) = log_loop-Ends wakes last open_later plain_later in
        rw open_here
          (ends, logged-event e _ plain_here ∙ ap (◌∷◌ (shown dumps correlation_id e)) told)
    log_loop-Ends (empty time ∷ wakes) last open_still plain =
        elim (Bool-cases (is_due dumps number correlation_id last time)) [
          | inl due ↦
              let (ends, told) = log_loop-Ends wakes time open_still plain in
              rw due (ends, logged-heartbeat time _ ∙ told)
          | inr early ↦
              let (ends, told) = log_loop-Ends wakes last open_still plain in rw early (ends, told)
        ]

    -- At a shutdown the log stream ends by itself, at the first wait that finds the queue empty. Until
    -- then a browser reads off it, besides the heartbeats, that the connection is open, and then every
    -- event of the queue, once and in order, also those that came after the announcement.
    pub log_stream_ends :
        (start : ℕ) (wakes : List Wake)
        → StaysOpen (items wakes)
        → All IsPlain (items wakes)
        → let (texts, ended) =
            log_stream dumps number correlation_id start (wakes ++ ending closing more now rest) in
          (ended ≡ true)
          × (logged (joined_texts texts)
              ≡ opened dumps correlation_id
                ∷ map (shown dumps correlation_id) (items wakes ++ closing ∷ more))
    unfolding log_stream
    log_stream_ends start wakes open_still plain =
        let (ends, told) = log_loop-Ends wakes start open_still plain in
        (ends, logged-opening _ ∙ ap (◌∷◌ (opened dumps correlation_id)) told)
