-- ===== src/FrontendVersion.antt =====
-- app/services/frontend_version_service.py: the version that each connecting client is told. The
-- answer to the request for the version file is the parameter `fetched`.
pub mod Closing
pub mod Pending
mod Tests
use zigbee_control.Prelude.{
  ℕ, String, Bool, true, false, Option, none, some, List, [], ◌∷◌, if◌then◌else◌, string_eq, truthy,
  truthy_opt,
}
use zigbee_control.Json.{Json, text, object, Fields, end, field, truthy_json}
use zigbee_control.Dict.{Dict, get, put}
use zigbee_control.Lifecycle.{
  LifecycleEvent, startup, prepare_shutdown, shutdown, after_shutdown, LifecycleCoordinator,
  register_lifecycle_notification,
}
use zigbee_control.Sse.{Manager, Env, register_on_connect}
use zigbee_control.Sse.Sending.{send_event}

pub record FrontendVersionService : Type 0 where
  pub pending_version : Dict String Json
  pub is_shutting_down : Bool
  pub sse : Manager

-- `__init__`, with the numbers of its two callbacks.
unfoldable pub create :
    (on_connect_callback lifecycle_callback : ℕ)
    → Manager
    → LifecycleCoordinator
    → FrontendVersionService × LifecycleCoordinator
create on_connect_callback lifecycle_callback m c = (
  record {
    pending_version = [];
    is_shutting_down = false;
    sse = register_on_connect on_connect_callback m;
  },
  register_lifecycle_notification lifecycle_callback c,
)

-- What the request for the version file ends in: a document, or an exception that is caught.
pub data Fetched : Type 0 where
  version_document : Json → Fetched
  fetch_failed : (message : String) → Fetched

unfoldable pub fetch_frontend_version : Fetched → Json
fetch_frontend_version (version_document document) = document
fetch_frontend_version (fetch_failed message) =
    object (field "version" (text "unknown") (field "error" (text message) end))

abbrev pub pending_or : Option Json → Json → Json
pending_or none fetched = fetched
pending_or (some payload) fetched = if truthy_json payload then payload else fetched

abbrev pub changelog_field : Option String → Fields
changelog_field none = end
changelog_field (some changelog) =
    if truthy changelog then field "changelog" (text changelog) end else end

unfoldable pub event_payload : (version : String) → (changelog : Option String) → Json
event_payload version changelog =
    object (field "version" (text version) (changelog_field changelog))

-- The second locked section of `queue_version_event`.
abbrev pub store_pending :
    (request_id : String) → (payload : Json) → FrontendVersionService → FrontendVersionService
store_pending request_id payload s = record s {
  pending_version = put s.pending_version request_id payload;
}

module _ (env : Env) where
  unfoldable pub on_connect_callback :
      Fetched → String → FrontendVersionService → FrontendVersionService
  unfolding fetch_frontend_version truthy_json
  on_connect_callback fetched request_id s =
      let payload =
        pending_or (get s.pending_version request_id) (fetch_frontend_version fetched) in
      record s { sse = (send_event env (some request_id) payload "version" none s.sse).1 }

  abbrev pub broadcast_version : (payload : Json) → FrontendVersionService → FrontendVersionService
  broadcast_version payload s = record s {
    sse = (send_event env none payload "version" none s.sse).1;
  }

  -- The test of `_is_shutting_down` and the store hold the lock, one after the other, and the
  -- broadcast comes between them without it: here without any other call in between. `Closing` has the
  -- sections as single steps.
  unfoldable pub queue_version_event :
      (request_id version : String)
      → (changelog : Option String) → FrontendVersionService
      → Bool × FrontendVersionService
  unfolding event_payload
  queue_version_event request_id version changelog s = if s.is_shutting_down then (false, s) else (
    true,
    store_pending request_id (event_payload version changelog)
        (broadcast_version (event_payload version changelog) s),
  )

unfoldable pub handle_lifecycle_event :
    LifecycleEvent → FrontendVersionService → FrontendVersionService
handle_lifecycle_event prepare_shutdown s = record s { is_shutting_down = true }
handle_lifecycle_event shutdown s = record s { pending_version = [] }
handle_lifecycle_event startup s = s
handle_lifecycle_event after_shutdown s = s
