-- ===== src/Lifecycle/Hearing.antt =====
-- How a service hears the events of the coordinator: in their order, with its own steps in between.
use zigbee_control.Prelude.{List, [], ◌∷◌, ◌++◌}
use zigbee_control.Lifecycle.{LifecycleEvent, startup, prepare_shutdown, shutdown, after_shutdown}

-- The events of a whole life, in order.
abbrev pub whole_life : List LifecycleEvent
whole_life = startup ∷ prepare_shutdown ∷ shutdown ∷ after_shutdown ∷ []

module _ {S : Type 0} (Moves : S → S → Type 0) (tell : LifecycleEvent → S → S) where
  pub data Hears : S → List LifecycleEvent → S → Type 0 where
    quiet : {s : S} → Hears s [] s
    moves :
        {s t u : S} {events : List LifecycleEvent} → Moves s t → Hears t events u → Hears s events u
    told :
        {s t : S} {events : List LifecycleEvent} (event : LifecycleEvent)
        → Hears (tell event s) events t
        → Hears s (event ∷ events) t

  -- What neither a step nor an event ends is so after all of them.
  pub Hears-keeps :
      (P : S → Type 0)
      → ((s t : S) → Moves s t → P s → P t)
      → ((event : LifecycleEvent) (s : S) → P s → P (tell event s))
      → {s t : S} {events : List LifecycleEvent} → Hears s events t
      → P s
      → P t
  Hears-keeps P by_move by_event quiet p = p
  Hears-keeps P by_move by_event (moves {s} {t} m r) p =
      Hears-keeps P by_move by_event r (by_move s t m p)
  Hears-keeps P by_move by_event (told {s} event r) p =
      Hears-keeps P by_move by_event r (by_event event s p)

  -- The first event is told in a state that steps alone lead to.
  pub Hears-first :
      {s t : S} {event : LifecycleEvent} {events : List LifecycleEvent}
      → Hears s (event ∷ events) t
      → (u : S) × Hears s [] u × Hears (tell event u) events t
  Hears-first (moves m r) = let (u, before, after) = Hears-first r in (u, moves m before, after)
  Hears-first (told {s} event r) = (s, quiet, r)

  pub Hears-trans :
      {s t : S} {events : List LifecycleEvent} {u : S} {later : List LifecycleEvent}
      → Hears s events t
      → Hears t later u
      → Hears s (events ++ later) u
  Hears-trans quiet q = q
  Hears-trans (moves m r) q = moves m (Hears-trans r q)
  Hears-trans (told event r) q = told event (Hears-trans r q)
