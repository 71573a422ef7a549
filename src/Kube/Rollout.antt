-- ===== src/Kube/Rollout.antt =====
-- `_extract_deployment_from_event`, `_deployment_ready` and `_detect_rollout_failure` of
-- app/services/kubernetes_service.py. A result `none` of the outer Option is a TypeError, raised
-- where a field that should hold a list of conditions holds something else.
pub mod Ready
pub mod Failure
use Prim.Native.String.{◌++◌ as append}
use zigbee_control.Prelude.{
  String, Bool, true, false, not, ◌&&◌, ◌||◌, Option, none, some, List, [], ◌∷◌, if◌then◌else◌,
}
use zigbee_control.Prelude.Int.{ℤ, pos, ltb_ℤ}
use zigbee_control.Kube.Value.{
  Value, null, inst, dict, seq, nil, cons, str, Values, is_null, not_null, and_then, or_null,
  lookup, get_field, get_int_field, iterate_or_empty, is_text, says_true, says_false, is_hashable,
  truthy_value,
}

abbrev pub first_item : Value → Values → Option Value
first_item obj nil = none
first_item obj (cons v vs) = some v

-- The `items` of a list object, and the object itself for any other.
abbrev pub unwrap_items : Value → Option Value → Option Value
unwrap_items obj (some (seq vs)) = first_item obj vs
unwrap_items obj _ = some obj

abbrev pub from_object : Value → Option Value
from_object null = none
from_object (inst attributes) = unwrap_items (inst attributes) (lookup attributes "items")
from_object obj = some obj

abbrev pub or_self : Value → Option Value → Value
or_self event none = event
or_self event (some v) = v

unfoldable pub extract_deployment_from_event : Value → Option Value
extract_deployment_from_event null = none
extract_deployment_from_event (dict items) = from_object (or_null (lookup items "object"))
extract_deployment_from_event (inst attributes) =
    from_object (or_self (inst attributes) (lookup attributes "object"))
extract_deployment_from_event event = from_object event

abbrev pub at_least : Option ℤ → ℤ → Bool
at_least none bound = false
at_least (some value) bound = not (ltb_ℤ value bound)

abbrev pub is_positive : Option ℤ → Bool
is_positive none = false
is_positive (some value) = ltb_ℤ (pos 0) value

abbrev pub or_else : Option ℤ → Option ℤ → Option ℤ
or_else none other = other
or_else (some value) other = some value

-- The replica counts, against the desired number or, if that is unknown, by presence.
abbrev pub enough_replicas : (desired ready available updated : Option ℤ) → Bool
enough_replicas none none none updated = false
enough_replicas none _ _ updated = true
enough_replicas (some desired) ready available updated =
    at_least ready desired && at_least available desired && at_least updated desired

-- `generation is not None and generation > observed`
abbrev pub is_ahead : Option ℤ → ℤ → Bool
is_ahead none observed = false
is_ahead (some generation) observed = ltb_ℤ observed generation

-- `cond_gen is None or cond_gen >= target`
abbrev pub is_current : Option ℤ → ℤ → Bool
is_current none target = true
is_current (some generation) target = not (ltb_ℤ generation target)

abbrev pub reason_text : Value → Value
reason_text reason =
    if is_text reason "ProgressDeadlineExceeded"
    then str "progress deadline exceeded"
    else if truthy_value reason
    then reason
    else str "rollout halted"

abbrev pub message_text : Value → Value → Value
message_text message reason = if truthy_value message then message else reason_text reason

module _ (parse_int : String → Option ℤ) where
  abbrev pub condition_generation : Value → Option ℤ
  condition_generation c =
      get_int_field parse_int c ("observed_generation" ∷ "observedGeneration" ∷ [])

  -- The loop of `_deployment_ready` over the conditions: what it returns, if it returns.
  unfoldable pub availability : ℤ → List Value → Option Bool
  availability target [] = none
  availability target (c ∷ cs) =
      let rest = availability target cs in
      if not (is_text (get_field c ("type" ∷ [])) "Available")
      then rest
      else if not (says_true (get_field c ("status" ∷ [])))
      then some false
      else if is_current (condition_generation c) target
      then some true
      else rest

  abbrev pub or_counts : Option Bool → (ready available : Option ℤ) → Bool
  or_counts (some b) ready available = b
  or_counts none ready available = is_positive ready || is_positive available

  abbrev pub judge : Option (List Value) → ℤ → (ready available : Option ℤ) → Option Bool
  judge none target ready available = none
  judge (some conditions) target ready available =
      some (or_counts (availability target conditions) ready available)

  -- `_deployment_ready`, once the observed generation is known.
  unfoldable pub ready_at : Value → Value → ℤ → ℤ → Option Bool
  ready_at obj status observed target =
      let desired =
        or_else (get_int_field parse_int (get_field obj ("spec" ∷ [])) ("replicas" ∷ []))
          (get_int_field parse_int status ("replicas" ∷ [])) in
      let ready = get_int_field parse_int status ("ready_replicas" ∷ "readyReplicas" ∷ []) in
      let available =
        get_int_field parse_int status ("available_replicas" ∷ "availableReplicas" ∷ []) in
      let updated = get_int_field parse_int status ("updated_replicas" ∷ "updatedReplicas" ∷ []) in
      let generation =
        get_int_field parse_int (get_field obj ("metadata" ∷ [])) ("generation" ∷ []) in
      if not (enough_replicas desired ready available updated)
      then some false
      else if is_ahead generation observed
      then some false
      else judge (iterate_or_empty (get_field status ("conditions" ∷ []))) target ready available

  abbrev pub ready_if_observed : Value → Value → Option ℤ → ℤ → Option Bool
  ready_if_observed obj status none target = some false
  ready_if_observed obj status (some observed) target =
      if ltb_ℤ observed target then some false else ready_at obj status observed target

  unfoldable pub deployment_ready : Value → ℤ → Option Bool
  unfolding ready_at
  deployment_ready obj target =
      let status = get_field obj ("status" ∷ []) in
      if is_null status
      then some false
      else ready_if_observed obj status
          (get_int_field parse_int status ("observed_generation" ∷ "observedGeneration" ∷ []))
          target

  -- A condition that says that the rollout at the target generation has failed.
  abbrev pub is_failure : ℤ → Value → Bool
  is_failure target c =
      is_current (condition_generation c) target
      && is_text (get_field c ("type" ∷ [])) "Progressing"
      && says_false (get_field c ("status" ∷ []))

  -- The loop of `_detect_rollout_failure`. The outer `none` is a TypeError; the value is the one
  -- that is put into the text "deployment rollout failed: …".
  unfoldable pub first_failure : ℤ → List Value → Option (Option Value)
  first_failure target [] = some none
  first_failure target (c ∷ cs) =
      let rest = first_failure target cs in
      if not (is_hashable (get_field c ("type" ∷ [])))
      then none
      else if is_failure target c
      then some (some (message_text (get_field c ("message" ∷ [])) (get_field c ("reason" ∷ []))))
      else rest

  abbrev pub failures_in : ℤ → Option (List Value) → Option (Option Value)
  failures_in target none = none
  failures_in target (some conditions) = first_failure target conditions

  unfoldable pub detect_rollout_failure : Value → ℤ → Option (Option Value)
  unfolding first_failure
  detect_rollout_failure obj target =
      let status = get_field obj ("status" ∷ []) in
      if is_null status
      then some none
      else failures_in target (iterate_or_empty (get_field status ("conditions" ∷ [])))
