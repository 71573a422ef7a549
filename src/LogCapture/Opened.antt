-- ===== src/LogCapture/Opened.antt =====
-- An open client of the log: what each action of the handler and of the clients does to it.
use zigbee_control.Prelude.{
  ◌≡◌, refl, ◌≢◌, inl, inr, ℕ, true, false, not, some, List, [], ◌∷◌, ◌++◌, if◌then◌else◌, arith,
  ◌==◌, ==-iff, ==-refl, nat_eq, string_eq, Bool-cases, Option-cases, count, contains, select,
  count-append,
}
use zigbee_control.Dict.{get, get-put}
use zigbee_control.LogCapture.{LogEvent, send_each, broadcast_event}
use zigbee_control.LogCapture.Clients.{
  World, Clients, SseLogClient, new_client, put_event, enter, close, get_events,
}

-- The client is registered once, exists, and is not closed.
pub record IsOpen (client : ℕ) (c : SseLogClient) (w : World) : Type 0 where
  pub registered : count client w.0.clients ≡ 1
  pub stored : get w.1 client ≡ some c
  pub opened : c.closed ≡ false

abbrev pub with_event : SseLogClient → LogEvent → SseLogClient
with_event c event = record c { events = c.events ++ event ∷ [] }

module _ (client : ℕ) (c : SseLogClient) (opened : c.closed ≡ false) where
  get-put_event :
      (j : ℕ) (event : LogEvent) (s : Clients)
      → get s client ≡ some c
      → get (put_event j event s).1 client ≡ some (if j == client then with_event c event else c)
  unfolding put_event
  get-put_event j event s stored = elim (Option-cases (get s j)) [
    | inl gone ↦ rw gone (ground (arith, ==-iff j client))
    | inr (d, found) ↦
        rw found (ground (arith, ==-iff j client, get-put s j client (with_event d event)))
  ]

  get-send_each_none :
      (event : LogEvent) (clients : List ℕ) (s : Clients)
      → count client clients ≡ 0
      → get s client ≡ some c
      → get (send_each put_event event clients s).1 client ≡ some c
  unfolding send_each
  get-send_each_none event [] s absent stored = stored
  get-send_each_none event (j ∷ rest) s absent stored =
      get-send_each_none event rest (put_event j event s).1 (ground arith)
        (ground (arith, get-put_event j event s stored))

module _ (client : ℕ) (c : SseLogClient) (opened : c.closed ≡ false) where
  get-send_each :
      (event : LogEvent) (clients : List ℕ) (s : Clients)
      → count client clients ≡ 1
      → get s client ≡ some c
      → get (send_each put_event event clients s).1 client ≡ some (with_event c event)
  unfolding send_each
  get-send_each event [] s once stored = absurd (omega arith)
  get-send_each event (j ∷ rest) s once stored =
      let sent = get-put_event client c opened j event s stored in
      elim (Bool-cases (j == client)) [
        | inl same ↦
            get-send_each_none client (with_event c event) opened event rest (put_event j event s).1
              (ground arith) (ground arith)
        | inr other ↦ get-send_each event rest (put_event j event s).1 (ground arith) (ground arith)
      ]

failed-put_event :
    (event : LogEvent) (clients : List ℕ) (s : Clients)
    → (send_each put_event event clients s).0 ≡ []
unfolding send_each put_event
failed-put_event event [] s = refl
failed-put_event event (j ∷ rest) s = failed-put_event event rest (put_event j event s).1

count_zero : (a : ℕ) (xs : List ℕ) → contains xs a ≡ false → count a xs ≡ 0
unfolding contains
count_zero a [] h = refl
count_zero a (x ∷ xs) h = ground (arith, ==-iff x a, ==-iff a x, count_zero a xs)

count-discard :
    (a b : ℕ) (xs : List ℕ) → a ≢ b → count a (select (λ c. not (c == b)) xs) ≡ count a xs
count-discard a b [] h = refl
count-discard a b (x ∷ xs) h = ground (arith, ==-iff x a, ==-iff x b, count-discard a b xs h)

module _ (client : ℕ) where
  pub broadcast-IsOpen :
      (c : SseLogClient) (event : LogEvent) (w : World)
      → IsOpen client c w
      → IsOpen client (with_event c event) (broadcast_event put_event event w)
  unfolding broadcast_event
  broadcast-IsOpen c event (h, s) o =
      let sent = get-send_each client c o.opened event h.clients s o.registered o.stored in
      rw (failed-put_event event h.clients s)
        (record { registered = o.registered; stored = sent; opened = o.opened })

  pub enter-IsOpen :
      (w : World) → contains w.0.clients client ≡ false → IsOpen client new_client (enter client w)
  unfolding enter
  enter-IsOpen (h, s) fresh = record {
    registered = rw fresh (
        ground (
          arith,
          count-append client h.clients (client ∷ []),
          count_zero client h.clients,
          ==-refl client,
        ));
    stored = ground (arith, get-put s client client new_client, ==-refl client);
    opened = refl;
  }

  pub enter_other-IsOpen :
      (c : SseLogClient) (j : ℕ) (w : World)
      → j ≢ client
      → IsOpen client c w
      → IsOpen client c (enter j w)
  unfolding enter
  enter_other-IsOpen c j (h, s) other o = record {
    registered =
        ground (arith, o.registered, count-append client h.clients (j ∷ []), ==-iff j client);
    stored = ground (arith, o.stored, get-put s j client new_client, ==-iff j client);
    opened = o.opened;
  }

  pub close_other-IsOpen :
      (c : SseLogClient) (j : ℕ) (w : World)
      → j ≢ client
      → IsOpen client c w
      → IsOpen client c (close j w)
  unfolding close
  close_other-IsOpen c j (h, s) other o = elim (Option-cases (get s j)) [
    | inl gone ↦ rw (gone, close) o
    | inr (d, found) ↦ elim (Bool-cases d.closed) [
      | inl shut ↦ rw found (rw shut o)
      | inr open_still ↦ rw found (
          rw open_still (record {
            registered = ground (arith, o.registered, count-discard client j h.clients);
            stored =
                ground (
                  arith,
                  o.stored,
                  get-put s j client (record d { closed = true }),
                  ==-iff j client,
                );
            opened = o.opened;
          }))
    ]
  ]

  pub drain_other-IsOpen :
      (c : SseLogClient) (j : ℕ) (w : World)
      → j ≢ client
      → IsOpen client c w
      → IsOpen client c (get_events j w).1
  unfolding get_events
  drain_other-IsOpen c j (h, s) other o = elim (Option-cases (get s j)) [
    | inl gone ↦ rw gone o
    | inr (d, found) ↦ rw found (record {
      registered = o.registered;
      stored =
          ground (arith, o.stored, get-put s j client (record d { events = [] }), ==-iff j client);
      opened = o.opened;
    })
  ]

  pub drain-IsOpen :
      (c : SseLogClient) (w : World)
      → IsOpen client c w
      → IsOpen client (record c { events = [] }) (get_events client w).1
        × ((get_events client w).0 ≡ c.events)
  unfolding get_events
  drain-IsOpen c (h, s) o = rw o.stored (
    record {
      registered = o.registered;
      stored = ground (arith, get-put s client client (record c { events = [] }), ==-refl client);
      opened = o.opened;
    },
    refl,
  )
