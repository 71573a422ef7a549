-- ===== src/Kube/Workers.antt =====
-- The table `_inflight` of KubernetesService and the worker threads: `request_restart`, the end of
-- `_perform_restart`, and the endpoint of app/api/restart.py.
pub mod Exclusion
use zigbee_control.Prelude.{
  ◌≡◌, refl, ℕ, String, Bool, true, false, Option, none, some, List, [], ◌∷◌, ◌++◌, if◌then◌else◌,
  string_eq, pair_eq, remove_first,
}
use zigbee_control.Prelude.Results.{Result, ok, err}
use zigbee_control.Dict.{Dict, has, put, pop}
use zigbee_control.Sse.{Env}
use zigbee_control.Config.{KubernetesConfig, TabConfig, ConfigService, TabError, assert_restartable}
use zigbee_control.TabStatus.{TabStatus, StatusPayload, StatusState, restarting, emit}
use zigbee_control.Kube.Errors.{Failure, in_progress}

-- DeploymentKey: namespace and deployment.
abbrev pub Key : Type 0
Key = String × String

-- `requests` are the keys of the calls of `request_restart` between their locked section and the
-- start of their worker, `workers` those of the running workers.
pub record Service : Type 0 where
  pub inflight : Dict Key ℕ
  pub requests : List Key
  pub workers : List Key
  pub tabs : TabStatus

pub data RequestError : Type 0 where
  value_error index_error : RequestError
  refused : Failure → RequestError
  lookup_error : TabError → RequestError

-- The locked section of `request_restart`; `none` if the deployment is in flight.
unfoldable pub reserve : Key → ℕ → Service → Option Service
reserve key tab_index s =
    if has s.inflight key
    then none
    else some
        (record s { inflight = put s.inflight key tab_index; requests = s.requests ++ key ∷ [] })

abbrev pub restarting_status : StatusPayload
restarting_status = record { state = restarting; message = none }

module _ (env : Env) where
  -- The rest of `request_restart`: the status RESTARTING and the start of the worker. An
  -- IndexError of `emit` ends the call before the start.
  unfoldable pub launch : Key → ℕ → Service → Result RequestError (Unit {0}) × Service
  launch key tab_index s = elim (emit env tab_index restarting_status s.tabs) [
    | none ↦ (err index_error, record s { requests = remove_first key s.requests })
    | some tabs ↦ (
      ok tt,
      record s {
        requests = remove_first key s.requests;
        workers = s.workers ++ key ∷ [];
        tabs = tabs;
      },
    )
  ]

  abbrev pub key_of : KubernetesConfig → Key
  key_of k8s = (k8s.namespace, k8s.deployment)

  unfoldable pub request_restart :
      ℕ → TabConfig → Service → Result RequestError (Unit {0}) × Service
  unfolding reserve launch
  request_restart tab_index tab s = elim tab.k8s [
    | none ↦ (err value_error, s)
    | some k8s ↦ elim (reserve (key_of k8s) tab_index s) [
      | none ↦ (err (refused (in_progress k8s.namespace k8s.deployment)), s)
      | some s' ↦ launch (key_of k8s) tab_index s'
    ]
  ]

  abbrev pub or_same : Option TabStatus → TabStatus → TabStatus
  or_same none tabs = tabs
  or_same (some tabs') tabs = tabs'

  -- The end of a worker: its last status, and then the clean-up, which is made also if `emit`
  -- raises.
  unfoldable pub finish : Key → ℕ → StatusPayload → Service → Service
  finish key tab_index status s = record s {
    inflight = pop s.inflight key;
    workers = remove_first key s.workers;
    tabs = or_same (emit env tab_index status s.tabs) s.tabs;
  }

  -- `restart_tab`
  unfoldable pub restart_tab :
      ℕ → ConfigService → Service → Result RequestError (Unit {0}) × Service
  unfolding request_restart
  restart_tab idx config s = elim (assert_restartable idx config) [
    | err e ↦ (err (lookup_error e), s)
    | ok tab ↦ request_restart idx tab s
  ]
