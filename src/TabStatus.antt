-- ===== src/TabStatus.antt =====
-- app/services/tab_status_service.py and app/schemas/status.py: the last status of each tab, and
-- its delivery to connected and to new clients.
mod Tests
pub mod Replay
use zigbee_control.Prelude.{
  ℕ, zero, suc, String, Option, none, some, List, [], ◌∷◌, get_elem?, set, length, replicate,
}
use zigbee_control.Prelude.Int.{pos}
use zigbee_control.Json.{Json, int, text, object, field, end, opt_text}
use zigbee_control.Sse.{Manager, Env, register_on_connect}
use zigbee_control.Sse.Sending.{send_event}

pub data StatusState : Type 0 where
  running restarting error : StatusState

pub record StatusPayload : Type 0 where
  pub state : StatusState
  pub message : Option String

-- `StatusState.value`
unfoldable pub state_value : StatusState → String
state_value running = "running"
state_value restarting = "restarting"
state_value error = "error"

pub record TabStatus : Type 0 where
  pub last : List StatusPayload
  pub sse : Manager

abbrev pub idle : StatusPayload
idle = record { state = running; message = none }

-- `__init__`: the callback is `_on_client_connect`, under the number that is given.
unfoldable pub start : ℕ → ℕ → Manager → TabStatus
start callback tab_count m = record {
  last = replicate tab_count idle;
  sse = register_on_connect callback m;
}

unfoldable pub event_data : ℕ → StatusPayload → Json
unfolding state_value
event_data idx payload = object (
    field "tab_index" (int (pos idx)) (
      field "state" (text (state_value payload.state))
        (field "message" (opt_text payload.message) end)))

-- `none` is an IndexError.
unfoldable pub current : ℕ → TabStatus → Option StatusPayload
current idx s = get_elem? s.last idx

module _ (env : Env) where
  -- An IndexError leaves all as it was, and sends nothing.
  unfoldable pub emit : ℕ → StatusPayload → TabStatus → Option TabStatus
  unfolding event_data
  emit idx payload s = elim (get_elem? s.last idx) [
    | none ↦ none
    | some _ ↦ some (record {
      last = set s.last idx payload;
      sse = (send_event env none (event_data idx payload) "tab_status" none s.sse).1;
    })
  ]

  -- The loop of `_on_client_connect`, from index `idx` on.
  unfoldable pub send_all : String → ℕ → List StatusPayload → Manager → Manager
  send_all request_id idx [] m = m
  send_all request_id idx (payload ∷ rest) m =
      send_all request_id (suc idx) rest
        (send_event env (some request_id) (event_data idx payload) "tab_status" none m).1

  unfoldable pub on_client_connect : String → TabStatus → TabStatus
  unfolding send_all
  on_client_connect request_id s = record s { sse = send_all request_id 0 s.last s.sse }
