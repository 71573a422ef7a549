-- ===== src/Sse/Tests.antt =====
-- The theorems about the connection manager at concrete states.
use zigbee_control.Prelude.{◌≡◌, refl, String, true, none, some, [], ◌∷◌, string_eq}
use zigbee_control.Json.{null}
use zigbee_control.Dict.{get}
use zigbee_control.Sse.{Env, Manager, init, status, register, forget, tokens_to_send}
use zigbee_control.Sse.Sending.{send_event, event_request}
use zigbee_control.Sse.Coherence.{IsCoherent, init-IsCoherent}
use zigbee_control.Sse.Delivery.{accepted, send_event_broadcast, send_event_targeted}
use zigbee_control.Sse.Interleaving.{done, next, registers, forgets, Steps-IsCoherent}

abbrev answering : Env
answering = record { dumps = λ j. "{}"; gateway = λ h p. status 200; invoke = λ k r m. (true, m) }

abbrev owner : String → String
owner t = "r1"

abbrev connected : Manager
connected = record init {
  connections = ("r1", record { token = "t1"; url = "u" }) ∷ [];
  token_to_request_id = ("t1", "r1") ∷ [];
  identity_map = ("r1", "alice") ∷ [];
}

Steps-IsCoherent_example : IsCoherent owner (forget "r1" "t0" (register "r1" "t1" "u" init).1)
Steps-IsCoherent_example =
    Steps-IsCoherent owner (next (next done (registers "t1" "u")) (forgets "t0"))
      (init-IsCoherent owner)

send_event_broadcast_example :
    ((send_event answering none null "e" (some "alice") connected).1.posts
      ≡ event_request answering "t1" null "e" ∷ [])
    × ((send_event answering none null "e" (some "alice") connected).0 ≡ true)
unfolding tokens_to_send accepted get
send_event_broadcast_example = send_event_broadcast answering null "e" (some "alice") connected

send_event_targeted_example :
    ((send_event answering (some "r1") null "e" none connected).1.posts
      ≡ event_request answering "t1" null "e" ∷ [])
    × ((send_event answering (some "r1") null "e" none connected).0 ≡ true)
    × ((send_event answering (some "r1") null "e" none connected).1.connections
        ≡ connected.connections)
unfolding get
send_event_targeted_example =
    send_event_targeted answering null "e" "r1" (record { token = "t1"; url = "u" }) none connected
      refl
