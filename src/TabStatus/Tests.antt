-- ===== src/TabStatus/Tests.antt =====
-- The theorems about the tab status at concrete states.
use zigbee_control.Prelude.{◌≡◌, refl, true, none, [], ◌∷◌, string_eq, nat_eq}
use zigbee_control.Dict.{get}
use zigbee_control.Sse.{Env, init, status}
use zigbee_control.TabStatus.{TabStatus, restarting, idle, on_client_connect}
use zigbee_control.TabStatus.Replay.{replay, on_client_connect_replays}

abbrev answering : Env
answering = record { dumps = λ j. "{}"; gateway = λ h p. status 200; invoke = λ k r m. (true, m) }

abbrev two_tabs : TabStatus
two_tabs = record {
  last = idle ∷ record { state = restarting; message = none } ∷ [];
  sse = record init { connections = ("r1", record { token = "t1"; url = "u" }) ∷ [] };
}

on_client_connect_replays_example :
    ((on_client_connect answering "r1" two_tabs).sse.posts ≡ replay answering "t1" 0 two_tabs.last)
    × ((on_client_connect answering "r1" two_tabs).last ≡ two_tabs.last)
unfolding get
on_client_connect_replays_example =
    on_client_connect_replays answering (λ h p. refl) "r1" (record { token = "t1"; url = "u" })
      two_tabs refl
