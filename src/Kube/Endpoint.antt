-- ===== src/Kube/Endpoint.antt =====
-- The endpoint of app/api/restart.py with the error handlers that `register_error_handlers` of
-- app/startup.py adds. An error that has none of them is answered by the handler of `Exception` in
-- app/utils/flask_error_handlers.py.
use Prim.Native.String.{◌++◌ as append}
use zigbee_control.Prelude.{
  ℕ, String, false, Option, none, some, true, get_elem?, ◌≡◌, ◌==◌, nat_eq, string_eq, pair_eq, ◌↔◌,
  refl, arith,
}
use zigbee_control.Prelude.Results.{Result, ok, err}
use zigbee_control.Errors.{handle_exception, other_exception}
use zigbee_control.Dict.{has}
use zigbee_control.Sse.{Env}
use zigbee_control.Config.{
  ConfigService, TabConfig, KubernetesConfig, TabError, tab_not_found, tab_not_restartable,
  assert_restartable,
}
use zigbee_control.Kube.Errors.{
  Failure, failed, timed_out, in_progress, other, failure_text, show_ℕ,
}
use zigbee_control.Kube.Workers.Exclusion.{request_restart_twice}
use zigbee_control.Kube.Workers.{
  Service, RequestError, value_error, index_error, refused, lookup_error, restart_tab,
  request_restart, launch, reserve, key_of,
}

-- The status of an answer, and its member `error`, which the answer of a started restart has not.
-- The state RESTARTING in that answer and the correlation id in the others are left out.
pub record Answer : Type 0 where
  pub status_code : ℕ
  pub error : Option String

unfoldable pub tab_error_text : TabError → String
unfolding show_ℕ
tab_error_text (tab_not_found idx) = append "tab index " (append (show_ℕ idx) " is out of range")
tab_error_text (tab_not_restartable idx) =
    append "tab index " (append (show_ℕ idx) " is not restartable")

abbrev pub answered : ℕ → String → Answer
answered status_code text = record { status_code = status_code; error = some text }

-- `handle_generic_exception`
abbrev pub generic : String → Answer
generic text =
    let answer = (handle_exception none (other_exception text)).0 in
    answered answer.status_code answer.error

abbrev pub handle_tab_error : TabError → Answer
handle_tab_error (tab_not_restartable idx) = answered 400 (tab_error_text (tab_not_restartable idx))
handle_tab_error (tab_not_found idx) = answered 404 (tab_error_text (tab_not_found idx))

abbrev pub handle_failure : Failure → Answer
handle_failure (in_progress namespace deployment) =
    answered 409 (failure_text (in_progress namespace deployment))
handle_failure (failed message namespace deployment) =
    answered 500 (failure_text (failed message namespace deployment))
handle_failure (timed_out namespace deployment seconds) =
    answered 500 (failure_text (timed_out namespace deployment seconds))
handle_failure (other text) = generic text

abbrev pub handle_request_error : RequestError → Answer
handle_request_error value_error = generic "restart requested for non-restartable tab"
handle_request_error index_error = generic "list assignment index out of range"
handle_request_error (refused failure) = handle_failure failure
handle_request_error (lookup_error e) = handle_tab_error e

unfoldable pub answer_restart : Result RequestError (Unit {0}) → Answer
unfolding tab_error_text handle_exception failure_text
answer_restart (ok done) = record { status_code = 200; error = none }
answer_restart (err e) = handle_request_error e

unfoldable pub restart_endpoint : Env → ℕ → ConfigService → Service → Answer × Service
unfolding answer_restart restart_tab
restart_endpoint env idx config s =
    let (result, s') = restart_tab env idx config s in (answer_restart result, s')

-- A request that is answered with a status below 500 other than 200 changes nothing.
pub restart_endpoint_refused :
    (env : Env) (idx : ℕ) (config : ConfigService) (s : Service)
    → let (answer, s') = restart_endpoint env idx config s in
      (answer.status_code == 200 ≡ false) → (answer.status_code == 500 ≡ false) → s' ≡ s
unfolding restart_endpoint request_restart reserve launch assert_restartable
restart_endpoint_refused env idx config s started failed_inside = ground arith

restart_endpoint_found :
    (env : Env) (idx : ℕ) (config : ConfigService) (s : Service) (tab : TabConfig)
    (k8s : KubernetesConfig)
    → get_elem? config.tabs idx ≡ some tab
    → tab.k8s ≡ some k8s
    → restart_endpoint env idx config s
      ≡ (answer_restart (request_restart env idx tab s).0, (request_restart env idx tab s).1)
unfolding restart_endpoint assert_restartable
restart_endpoint_found env idx config s tab k8s at deployed = ground arith

request_restart_409 :
    (env : Env) (idx : ℕ) (s : Service) (tab : TabConfig) (k8s : KubernetesConfig)
    → tab.k8s ≡ some k8s
    → ((answer_restart (request_restart env idx tab s).0).status_code ≡ 409)
      ↔ (has s.inflight (key_of env k8s) ≡ true)
unfolding answer_restart request_restart reserve launch
request_restart_409 env idx s tab k8s deployed = (λ h. ground arith, λ h. ground arith)

-- For tabs of one deployment, the answer is 409 exactly if a restart of it is in flight; and after
-- a request, however it was answered, the next one is answered 409 and changes nothing.
pub restart_endpoint_twice :
    (env : Env) (i j : ℕ) (config : ConfigService) (s : Service) (tab tab' : TabConfig)
    (k8s : KubernetesConfig)
    → get_elem? config.tabs i ≡ some tab
    → get_elem? config.tabs j ≡ some tab'
    → tab.k8s ≡ some k8s
    → tab'.k8s ≡ some k8s
    → let (first, s') = restart_endpoint env i config s in
      let (second, s'') = restart_endpoint env j config s' in
      ((first.status_code ≡ 409) ↔ (has s.inflight (key_of env k8s) ≡ true))
      × (second.status_code ≡ 409)
      × (s'' ≡ s')
restart_endpoint_twice env i j config s tab tab' k8s at_i at_j deployed deployed' =
    let s' = (request_restart env i tab s).1 in
    let again = (request_restart_twice env i j tab tab' k8s s deployed deployed').0 in
    let found = restart_endpoint_found env j config s' tab' k8s at_j deployed' in
    rw (restart_endpoint_found env i config s tab k8s at_i deployed) (
      rw found (
        rw again
          (request_restart_409 env i s tab k8s deployed, unfold answer_restart in refl, refl)))
