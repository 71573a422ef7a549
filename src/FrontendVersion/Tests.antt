-- ===== src/FrontendVersion/Tests.antt =====
-- Version events at a concrete service.
use zigbee_control.Prelude.{◌≡◌, refl, String, true, false, none, some, [], ◌∷◌, ◌==◌, string_eq}
use zigbee_control.Sse.{Env, init, status}
use zigbee_control.Sse.Sending.{send_event}
use zigbee_control.FrontendVersion.{
  FrontendVersionService, fetch_failed, event_payload, on_connect_callback, queue_version_event,
}
use zigbee_control.FrontendVersion.Pending.{queued_version_sent}

abbrev answering : Env
answering = record { dumps = λ j. "{}"; gateway = λ h p. status 200; invoke = λ k r m. (true, m) }

abbrev service : FrontendVersionService
service = record {
  pending_version = [];
  is_shutting_down = false;
  sse = record init { connections = ("r1", record { token = "t1"; url = "u" }) ∷ [] };
}

abbrev r1 : String
r1 = "r1"

queued_version_sent_example :
    let (queued, after) = queue_version_event answering "r1" "2.0" none service in
    let payload = event_payload "2.0" none in
    (queued ≡ true)
    × (after.sse ≡ (send_event answering none payload "version" none service.sse).1)
    × ((on_connect_callback answering (fetch_failed "x") "r1" after).sse
        ≡ (send_event answering (some "r1") payload "version" none after.sse).1)
    × ((r1 == "r2") ≡ false
        → (on_connect_callback answering (fetch_failed "x") "r2" after).sse
          ≡ (on_connect_callback answering
              (fetch_failed "x")
              "r2"
              (record service { sse = after.sse })).sse)
queued_version_sent_example =
    queued_version_sent answering "r1" "r2" "2.0" none (fetch_failed "x") service refl
