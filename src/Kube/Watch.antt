-- ===== src/Kube/Watch.antt =====
-- `_wait_for_rollout` of app/services/kubernetes_service.py: the loop over the watch stream.
use Prim.Native.String.{◌++◌ as append}
use zigbee_control.Prelude.{
  ◌≡◌, refl, ap, ℕ, ◌+◌, String, Bool, true, false, Option, none, some, List, [], ◌∷◌, ◌++◌,
  if◌then◌else◌, leb, arith, Bool-cases, inl, inr, All,
}
use zigbee_control.Prelude.Int.{ℤ}
use zigbee_control.Prelude.Results.{Result, ok, err}
use zigbee_control.Kube.Value.{Value, truthy_value}
use zigbee_control.Kube.Rollout.{
  extract_deployment_from_event, deployment_ready, detect_rollout_failure,
}
use zigbee_control.Kube.Rollout.Ready.{IsRolledOut, deployment_ready-IsRolledOut}
use zigbee_control.Kube.Errors.{Failure, failed, timed_out, other}

-- What the watch stream yields: an event, with the monotonic clock when the loop looks at it
-- after the event; or an exception of the client, with its text. The stream may also end.
pub data Item : Type 0 where
  event : Value → ℕ → Item
  broken : String → Item

-- What one event means for the loop.
pub data Verdict : Type 0 where
  wait complete : Verdict
  fail : Value → Verdict
  type_error : Verdict

abbrev pub verdict_of_ready : Option Bool → Verdict
verdict_of_ready none = type_error
verdict_of_ready (some true) = complete
verdict_of_ready (some false) = wait

abbrev pub verdict_of_checks : Option (Option Value) → Option Bool → Verdict
verdict_of_checks none ready = type_error
verdict_of_checks (some none) ready = verdict_of_ready ready
verdict_of_checks (some (some message)) ready = fail message

-- Python's `int` on a text, and its `str` on a value.
pub record Python : Type 0 where
  pub parse_int : String → Option ℤ
  pub show : Value → String
  pub type_error_text : String

module _ (python : Python) where
  open python use {parse_int, show, type_error_text}

  -- The body of the loop, up to the look at the clock.
  abbrev pub look_at : ℤ → Option Value → Verdict
  look_at target none = wait
  look_at target (some obj) =
      if truthy_value obj
      then verdict_of_checks (detect_rollout_failure parse_int obj target)
          (deployment_ready parse_int obj target)
      else wait

  unfoldable pub look : ℤ → Value → Verdict
  look target v = look_at target (extract_deployment_from_event v)

  module _ (namespace deployment : String) (timeout : ℕ) where
    -- The loop, with the clock value at which it gives up.
    unfoldable pub watch : ℕ → ℤ → List Item → Result Failure (Unit {0})
    watch deadline target [] = err (timed_out namespace deployment timeout)
    watch deadline target (broken text ∷ rest) = err (other text)
    watch deadline target (event v now ∷ rest) =
        let continued = watch deadline target rest in
        elim (look target v) [
          | complete ↦ ok tt
          | fail message ↦
              err
                (failed (append "deployment rollout failed: " (show message)) namespace deployment)
          | type_error ↦ err (other type_error_text)
          | wait ↦
              if leb deadline now then err (timed_out namespace deployment timeout) else continued
        ]

    unfoldable pub wait_for_rollout : (start : ℕ) → ℤ → List Item → Result Failure (Unit {0})
    wait_for_rollout start target stream = watch (start + timeout) target stream

    module _ (deadline : ℕ) (target : ℤ) where
      -- An event that decides nothing, before the deadline.
      abbrev pub IsWaiting : Item → Type 0
      IsWaiting (event v now) = (look target v ≡ wait) × (leb deadline now ≡ false)
      IsWaiting (broken text) = ⊥

      -- A stream with an event that shows the rollout complete, after events that decide nothing.
      pub record IsComplete (stream : List Item) : Type 0 where
        pub before : List Item
        pub shown : Value
        pub now : ℕ
        pub after : List Item
        pub splits : stream ≡ before ++ event shown now ∷ after
        pub waited : All IsWaiting before
        pub completes : look target shown ≡ complete

      watch-IsComplete :
          (stream : List Item) → watch deadline target stream ≡ ok tt → IsComplete stream
      unfolding watch
      watch-IsComplete [] h = cc
      watch-IsComplete (broken text ∷ rest) h = cc
      watch-IsComplete (event v now ∷ rest) h =
          by_verdict (look target v) refl (watch-IsComplete rest)
        where
          by_verdict :
              (w : Verdict)
              → look target v ≡ w
              → (watch deadline target rest ≡ ok tt → IsComplete rest)
              → IsComplete (event v now ∷ rest)
          by_verdict wait e later = elim (Bool-cases (leb deadline now)) [
            | inl late ↦ absurd (cc (rw late at (rw (e, watch) at h)))
            | inr early ↦
                let found = later (rw early at (rw (e, watch) at h)) in
                record {
                  before = event v now ∷ found.before;
                  shown = found.shown;
                  now = found.now;
                  after = found.after;
                  splits = ap (◌∷◌ (event v now)) found.splits;
                  waited = ((e, early), found.waited);
                  completes = found.completes;
                }
          ]
          by_verdict complete e later = record {
            before = [];
            shown = v;
            now = now;
            after = rest;
            splits = refl;
            waited = tt;
            completes = e;
          }
          by_verdict (fail message) e later = absurd (cc (rw (e, watch) at h))
          by_verdict type_error e later = absurd (cc (rw (e, watch) at h))

  -- Undecided events before the deadline and then a complete one end the loop.
  watch_completes :
      (namespace deployment : String) (timeout deadline now : ℕ) (target : ℤ) (shown : Value)
      (before after : List Item)
      → All (IsWaiting namespace deployment timeout deadline target) before
      → look target shown ≡ complete
      → watch namespace deployment timeout deadline target (before ++ event shown now ∷ after)
        ≡ ok tt
  unfolding watch
  watch_completes namespace deployment timeout deadline now target shown [] after w e =
      rw (e, watch) refl
  watch_completes namespace deployment timeout deadline now target shown (broken text ∷ before)
        after w e =
      absurd w.0
  watch_completes namespace deployment timeout deadline now target shown (event v t ∷ before) after
        w e =
      rw ((w.0).0, watch)
        (rw (w.0).1 (
          watch_completes namespace deployment timeout deadline now target shown before after w.1
            e))

  pub IsComplete-wait_for_rollout :
      (namespace deployment : String) (timeout start : ℕ) (target : ℤ) (stream : List Item)
      → IsComplete namespace deployment timeout (start + timeout) target stream
      → wait_for_rollout namespace deployment timeout start target stream ≡ ok tt
  unfolding wait_for_rollout
  IsComplete-wait_for_rollout namespace deployment timeout start target stream found =
      rw found.splits (
        watch_completes namespace deployment timeout (start + timeout) found.now target found.shown
          found.before found.after found.waited found.completes)

  -- A complete event carries a deployment that is rolled out at the target generation.
  pub look-IsRolledOut :
      (target : ℤ) (v : Value)
      → look target v ≡ complete
      → (obj : Value) × (extract_deployment_from_event v ≡ some obj)
        × IsRolledOut parse_int obj target
  unfolding look
  look-IsRolledOut target v h = by_object (extract_deployment_from_event v) refl
    where
      by_ready :
          (o : Option (Option Value)) (r : Option Bool)
          → verdict_of_checks o r ≡ complete
          → r ≡ some true
      by_ready o r e = ground arith

      by_object :
          (o : Option Value)
          → extract_deployment_from_event v ≡ o
          → (obj : Value) × (extract_deployment_from_event v ≡ some obj)
            × IsRolledOut parse_int obj target
      by_object none e = absurd (cc (rw e at h))
      by_object (some obj) e = elim (Bool-cases (truthy_value obj)) [
        | inl real ↦ (
          obj,
          e,
          deployment_ready-IsRolledOut parse_int obj target
              (by_ready (detect_rollout_failure parse_int obj target) _ (rw (e, real) at h)),
        )
        | inr empty ↦ absurd (cc (rw (e, empty) at h))
      ]

  -- `_wait_for_rollout` returns only after an event that shows the deployment rolled out at the
  -- target generation, where every earlier event decided nothing and was seen before the deadline.
  pub wait_for_rollout_sound :
      (namespace deployment : String) (timeout start : ℕ) (target : ℤ) (stream : List Item)
      → wait_for_rollout namespace deployment timeout start target stream ≡ ok tt
      → (found : IsComplete namespace deployment timeout (start + timeout) target stream)
        × (obj : Value) × (extract_deployment_from_event found.shown ≡ some obj)
        × IsRolledOut parse_int obj target
  unfolding wait_for_rollout
  wait_for_rollout_sound namespace deployment timeout start target stream h =
      let found = watch-IsComplete namespace deployment timeout (start + timeout) target stream h in
      let (obj, extracted, rolled_out) = look-IsRolledOut target found.shown found.completes in
      (found, obj, extracted, rolled_out)
