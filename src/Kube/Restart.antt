-- ===== src/Kube/Restart.antt =====
-- `_trigger_restart` and `_perform_restart` of app/services/kubernetes_service.py, with the
-- answers of the Kubernetes API as arguments.
use Prim.Native.String.{◌++◌ as append}
use zigbee_control.Prelude.{◌≡◌, refl, ℕ, ◌+◌, String, Option, none, some, List, arith}
use zigbee_control.Prelude.Int.{ℤ}
use zigbee_control.Prelude.Results.{Result, ok, err, ◌>>=◌, ◌>>◌, >>=-eq-ok}
use zigbee_control.TabStatus.{StatusPayload, running, error}
use zigbee_control.Kube.Value.{Value, extract_generation}
use zigbee_control.Kube.Rollout.{extract_deployment_from_event}
use zigbee_control.Kube.Rollout.Ready.{IsRolledOut}
use zigbee_control.Kube.Errors.{Failure, failed, timed_out, in_progress, other, failure_text}
use zigbee_control.Kube.Watch.{
  Item, Python, wait_for_rollout, IsComplete, wait_for_rollout_sound, IsComplete-wait_for_rollout,
}

-- What an API call ends in: it returns, raises an ApiException with this reason, or raises
-- another exception with this text.
pub data Answer (A : Type 0) : Type 0 where
  returned : A → Answer A
  api_exception : String → Answer A
  raised : String → Answer A

-- The answers to the two API calls of a restart, the clock before the watch, and its stream.
pub record Cluster : Type 0 where
  pub patch : Answer (Unit {0})
  pub read : Answer Value
  pub start : ℕ
  pub stream : List Item

module _ (python : Python) (namespace deployment : String) where
  abbrev pub restart_failed {ℓ} : {A : Type ℓ} → String → Result Failure A
  restart_failed message = err (failed message namespace deployment)

  -- An API call under the handlers that turn its exceptions into `RestartFailed`.
  abbrev pub guarded :
      {A : Type 0} → (api_prefix other_prefix : String) → Answer A → Result Failure A
  guarded api_prefix other_prefix (returned a) = ok a
  guarded api_prefix other_prefix (api_exception reason) = restart_failed (append api_prefix reason)
  guarded api_prefix other_prefix (raised text) = restart_failed (append other_prefix text)

  abbrev pub known : Option ℤ → Result Failure ℤ
  known none = restart_failed "unable to determine deployment generation"
  known (some generation) = ok generation

  unfoldable pub trigger_restart : Cluster → Result Failure ℤ
  trigger_restart cluster = do
    guarded "Kubernetes API error: " "unexpected error triggering restart: " cluster.patch
    deployment_obj ←
        guarded "failed to read deployment status: " "unexpected error reading deployment status: "
          cluster.read
    known (extract_generation python.parse_int deployment_obj)

  unfoldable pub attempt : ℕ → Cluster → Result Failure (Unit {0})
  attempt timeout cluster = do
    generation ← trigger_restart cluster
    wait_for_rollout python namespace deployment timeout cluster.start generation cluster.stream

-- The handlers of `_perform_restart`: the status that is emitted last.
unfoldable pub final_status : Result Failure (Unit {0}) → StatusPayload
final_status (ok _) = record { state = running; message = none }
final_status (err (timed_out namespace deployment seconds)) = record {
  state = error;
  message = some (failure_text (timed_out namespace deployment seconds));
}
final_status (err (failed message namespace deployment)) = record {
  state = error;
  message = some (failure_text (failed message namespace deployment));
}
final_status (err f) = record {
  state = error;
  message = some (append "restart failed: " (failure_text f));
}

unfoldable pub perform_restart : Python → String → String → ℕ → Cluster → StatusPayload
perform_restart python namespace deployment timeout cluster =
    final_status (attempt python namespace deployment timeout cluster)

final_status-running :
    (r : Result Failure (Unit {0})) → (final_status r).state ≡ running → r ≡ ok tt
unfolding final_status
final_status-running (ok _) h = refl
final_status-running (err (timed_out n d s)) h = cc
final_status-running (err (failed m n d)) h = cc
final_status-running (err (in_progress n d)) h = cc
final_status-running (err (other t)) h = cc

guarded-ok :
    (python : Python) (n d p q : String) {A : Type 0} (x : Answer A) {a : A}
    → guarded python n d p q x ≡ ok a
    → x ≡ returned a
guarded-ok python n d p q (returned b) h = ground arith
guarded-ok python n d p q (api_exception reason) h = cc
guarded-ok python n d p q (raised text) h = cc

known-ok :
    (python : Python) (n d : String) (o : Option ℤ) {g : ℤ} → known python n d o ≡ ok g → o ≡ some g
known-ok python n d none h = cc
known-ok python n d (some z) h = ground arith

-- A restart ends with the status RUNNING only if the patch was accepted, the deployment read
-- after it has a generation, and the watch showed the deployment rolled out at that generation
-- after nothing but undecided events before the deadline.
pub perform_restart_sound :
    (python : Python) (namespace deployment : String) (timeout : ℕ) (cluster : Cluster)
    → (perform_restart python namespace deployment timeout cluster).state ≡ running
    → (patched : Unit {0}) × (read : Value) × (generation : ℤ) × (cluster.patch ≡ returned patched)
      × (cluster.read ≡ returned read)
      × (extract_generation python.parse_int read ≡ some generation)
      × (found : IsComplete python namespace deployment timeout
          (cluster.start + timeout)
          generation
          cluster.stream)
      × (obj : Value) × (extract_deployment_from_event found.shown ≡ some obj)
      × IsRolledOut python.parse_int obj generation
unfolding perform_restart attempt trigger_restart
perform_restart_sound python namespace deployment timeout cluster h =
    let (generation, triggered, waited) = >>=-eq-ok _ _ (final_status-running _ h) in
    let (patched, patch_ok, rest) = >>=-eq-ok _ _ triggered in
    let (read, read_ok, generation_ok) = >>=-eq-ok _ _ rest in
    let (found, obj, extracted, rolled_out) =
      wait_for_rollout_sound python namespace deployment timeout cluster.start generation
        cluster.stream waited in
    (
      patched,
      read,
      generation,
      guarded-ok python namespace deployment _ _ cluster.patch patch_ok,
      guarded-ok python namespace deployment _ _ cluster.read read_ok,
      known-ok python namespace deployment _ generation_ok,
      found,
      obj,
      extracted,
      rolled_out,
    )

-- When the patch is accepted, the deployment is read with a generation, and the watch shows a
-- complete rollout at that generation after undecided events before the deadline, the restart ends
-- with the status RUNNING and no message.
pub perform_restart_running :
    (python : Python) (namespace deployment : String) (timeout : ℕ) (cluster : Cluster)
    (read : Value) (generation : ℤ)
    → cluster.patch ≡ returned tt
    → cluster.read ≡ returned read
    → extract_generation python.parse_int read ≡ some generation
    → IsComplete python namespace deployment timeout
        (cluster.start + timeout)
        generation
        cluster.stream
    → perform_restart python namespace deployment timeout cluster
      ≡ record { state = running; message = none }
unfolding perform_restart attempt trigger_restart final_status
perform_restart_running python namespace deployment timeout cluster read generation p r g found =
    simp
      (
        p,
        r,
        g,
        IsComplete-wait_for_rollout python namespace deployment timeout cluster.start generation
            cluster.stream found,
      )
      refl
