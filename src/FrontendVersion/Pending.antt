-- ===== src/FrontendVersion/Pending.antt =====
-- Which version a client is told when it connects, and what a shutdown leaves of it.
use zigbee_control.Prelude.{
  ◌≡◌, refl, String, true, false, Option, none, some, string_eq, ==-refl, ◌==◌,
}
use zigbee_control.Json.{Json, truthy_json}
use zigbee_control.Dict.{get, get-put}
use zigbee_control.Lifecycle.{prepare_shutdown, shutdown, after_shutdown}
use zigbee_control.Sse.{Env}
use zigbee_control.Sse.Sending.{send_event}
use zigbee_control.FrontendVersion.{
  FrontendVersionService, Fetched, fetch_frontend_version, pending_or, event_payload,
  on_connect_callback, queue_version_event, handle_lifecycle_event,
}

pub pending_or-payload :
    (version : String) (changelog : Option String) (fetched : Json)
    → pending_or (some (event_payload version changelog)) fetched ≡ event_payload version changelog
unfolding event_payload truthy_json
pending_or-payload version changelog fetched = refl

module _ (env : Env) where
  -- While the service is running, a queued version is sent to all connections, and a client that
  -- connects under its request id is sent that version, whatever the version file says; a client
  -- that connects under another request id is sent what it would have been sent before.
  pub queued_version_sent :
      (r q version : String) (changelog : Option String) (fetched : Fetched)
      (s : FrontendVersionService)
      → s.is_shutting_down ≡ false
      → let (queued, after) = queue_version_event env r version changelog s in
        let payload = event_payload version changelog in
        (queued ≡ true)
        × (after.sse ≡ (send_event env none payload "version" none s.sse).1)
        × ((on_connect_callback env fetched r after).sse
            ≡ (send_event env (some r) payload "version" none after.sse).1)
        × ((r == q) ≡ false
            → (on_connect_callback env fetched q after).sse
              ≡ (on_connect_callback env fetched q (record s { sse = after.sse })).sse)
  unfolding queue_version_event on_connect_callback
  queued_version_sent r q version changelog fetched s running = simp running (
    refl,
    refl,
    simp (get-put, ==-refl, pending_or-payload) refl,
    λ other. simp (get-put, other) refl,
  )

  -- From the shutdown on no version is queued, none is pending, and a client that connects is sent
  -- what the version file says.
  pub shutdown_forgets :
      (r version : String) (changelog : Option String) (fetched : Fetched)
      (s : FrontendVersionService)
      → let down =
          handle_lifecycle_event after_shutdown
            (handle_lifecycle_event shutdown (handle_lifecycle_event prepare_shutdown s)) in
        (queue_version_event env r version changelog down ≡ (false, down))
        × ((on_connect_callback env fetched r down).sse
            ≡ (send_event env (some r) (fetch_frontend_version fetched) "version" none s.sse).1)
  unfolding queue_version_event on_connect_callback handle_lifecycle_event get
  shutdown_forgets r version changelog fetched s = (refl, refl)
