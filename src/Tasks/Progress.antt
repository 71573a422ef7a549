-- ===== src/Tasks/Progress.antt =====
-- `TaskProgressHandle` of app/services/task_service.py and the loop of its clean-up thread. A float
-- is counted in thousandths, and `number` is its JSON.
use zigbee_control.Prelude.{
  ℕ, String, Bool, true, false, not, ◌&&◌, Option, none, some, List, [], ◌∷◌, if◌then◌else◌, ◌≡◌,
  refl, ap, ◌∙◌, arith,
}
use zigbee_control.Prelude.Int.{ℤ, pos, ltb_ℤ}
use zigbee_control.Json.{Json, text, object, field, end}
use zigbee_control.Sse.{Manager, Env}
use zigbee_control.Sse.Sending.{send_event}
use zigbee_control.Tasks.{TaskService, progress_update, cleanup_completed_tasks}
use zigbee_control.Tasks.Worker.{event_json}

pub record TaskProgressHandle : Type 0 where
  pub task_id : String
  pub target_subject : Option String
  pub progress : ℤ
  pub progress_text : String

unfoldable pub new_handle :
    (task_id : String) → (target_subject : Option String) → TaskProgressHandle
new_handle task_id target_subject = record {
  task_id = task_id;
  target_subject = target_subject;
  progress = pos 0;
  progress_text = "";
}

-- `Field(ge=0.0, le=1.0)`
abbrev pub in_range : ℤ → Bool
in_range value = not (ltb_ℤ value (pos 0)) && not (ltb_ℤ (pos 1000) value)

excluded_right : (a b : Bool) → b ≡ true → a && not b ≡ false
excluded_right a b h = ground arith

in_range_above : (value : ℤ) → ltb_ℤ (pos 1000) value ≡ true → in_range value ≡ false
in_range_above value above =
    excluded_right (not (ltb_ℤ value (pos 0))) (ltb_ℤ (pos 1000) value) above

module _ (env : Env) (isoformat : ℕ → String) (number : ℤ → Json) where
  unfoldable pub send_progress_event :
      (now : ℕ) → (progress_text : String) → ℤ → TaskProgressHandle → Manager → Manager
  send_progress_event now progress_text value h m =
      let progress =
        object (field "text" (text progress_text) (field "value" (number value) end)) in
      (send_event env none (event_json env isoformat progress_update h.task_id now (some progress))
        "task_event" h.target_subject m).1

  abbrev pub advanced : (progress_text : String) → ℤ → TaskProgressHandle → TaskProgressHandle
  advanced progress_text value h = record h {
    progress_text = progress_text;
    progress = if ltb_ℤ h.progress value then value else h.progress;
  }

  -- Whether the call returns: the update is checked after the handle has changed, and an update that
  -- is out of range raises.
  unfoldable pub send_progress :
      (now : ℕ)
      → (progress_text : String) → ℤ
      → TaskProgressHandle
      → Manager
      → Bool × (TaskProgressHandle × Manager)
  unfolding send_progress_event
  send_progress now progress_text value h m =
      let after = advanced progress_text value h in
      if in_range value
      then (true, (after, send_progress_event now progress_text value after m))
      else (false, (after, m))

  unfoldable pub send_progress_text :
      (now : ℕ)
      → (progress_text : String) → TaskProgressHandle
      → Manager
      → Bool × (TaskProgressHandle × Manager)
  unfolding send_progress
  send_progress_text now progress_text h m = send_progress now progress_text h.progress h m

  unfoldable pub send_progress_value :
      (now : ℕ) → ℤ → TaskProgressHandle → Manager → Bool × (TaskProgressHandle × Manager)
  unfolding send_progress
  send_progress_value now value h m = send_progress now h.progress_text value h m

  send_progress_refused :
      (now : ℕ) (s : String) (value : ℤ) (h : TaskProgressHandle) (m : Manager)
      → in_range value ≡ false
      → send_progress now s value h m ≡ (false, (advanced s value h, m))
  unfolding send_progress
  send_progress_refused now s value h m out = simp out refl

  -- A progress above 1 is kept although its update is refused, and every later update of the text
  -- alone is refused too, without an event.
  pub progress_out_of_range_stays :
      (now later : ℕ) (s t : String) (value : ℤ) (h : TaskProgressHandle) (m : Manager)
      → ltb_ℤ (pos 1000) value ≡ true
      → ltb_ℤ h.progress value ≡ true
      → let (sent, (after, m')) = send_progress now s value h m in
        let (sent_text, (_, m'')) = send_progress_text later t after m' in
        (sent ≡ false) × (sent_text ≡ false) × (m'' ≡ m)
  unfolding send_progress_text
  progress_out_of_range_stays now later s t value h m above more =
      let out = in_range_above value above in
      let first = send_progress_refused now s value h m out in
      let kept : (advanced s value h).progress ≡ value = simp more refl in
      let still : in_range (advanced s value h).progress ≡ false = ap in_range kept ∙ out in
      let second =
        send_progress_refused later t (advanced s value h).progress (advanced s value h) m still in
      rw first (refl, ap (λ r. r.0) second, ap (λ r. r.1.1) second)

-- What each wait of the clean-up thread ends in: the time when it ran out, or `none` for the event.
unfoldable pub cleanup_worker : List (Option ℕ) → TaskService → TaskService
cleanup_worker [] s = s
cleanup_worker (none ∷ waits) s = s
cleanup_worker (some now ∷ waits) s =
    if s.stop_cleanup then s else cleanup_worker waits (cleanup_completed_tasks now s)
