-- ===== src/Kube/Tests.antt =====
-- The theorems about restarts at a concrete deployment.
use zigbee_control.Prelude.{
  ◌≡◌, ◌↔◌, ◌≤◌, ◌<◌, refl, String, ℕ, true, none, some, Option, List, [], ◌∷◌, string_eq, nat_eq,
  pair_eq, count,
}
use zigbee_control.Prelude.Int.{ℤ, pos}
use zigbee_control.Dict.{has, put}
use zigbee_control.Sse.{Env, init, status}
use zigbee_control.Config.{TabConfig, KubernetesConfig, ConfigService}
use zigbee_control.Kube.Endpoint.{restart_endpoint, restart_endpoint_twice}
use zigbee_control.TabStatus.{running, TabStatus, idle}
use zigbee_control.Kube.Value.{
  Value, int, str, seq, dict, nil, cons, end, attribute, get_field, get_int_field,
  extract_generation,
}
use zigbee_control.Kube.Rollout.{
  extract_deployment_from_event, deployment_ready, availability, detect_rollout_failure,
}
use zigbee_control.Kube.Rollout.Ready.{IsRolledOut, deployment_ready-IsRolledOut}
use zigbee_control.Kube.Watch.{Item, event, Python, look, watch, wait_for_rollout, IsComplete}
use zigbee_control.Kube.Restart.{
  Cluster, returned, perform_restart, attempt, trigger_restart, final_status, perform_restart_sound,
  perform_restart_running,
}
use zigbee_control.Kube.Workers.{Service, reserve}
use zigbee_control.Kube.Workers.Exclusion.{here, next, reserves, Reach-single_worker}

abbrev parse_int : String → Option ℤ
parse_int s = none

abbrev condition : (type state : String) → Value
condition type state = dict (attribute "type" (str type) (attribute "status" (str state) end))

abbrev deployment_with : Value → Value
deployment_with conditions = dict (
    attribute "metadata" (dict (attribute "generation" (int (pos 2)) end)) (
      attribute "spec" (dict (attribute "replicas" (int (pos 1)) end)) (
        attribute "status"
          (dict (
            attribute "observedGeneration" (int (pos 2)) (
              attribute "readyReplicas" (int (pos 1)) (
                attribute "availableReplicas" (int (pos 1)) (
                  attribute "updatedReplicas" (int (pos 1))
                    (attribute "conditions" conditions end))))))
          end)))

abbrev rolled_out : Value
rolled_out = deployment_with (seq (cons (condition "Available" "True") nil))

abbrev unavailable : Value
unavailable = deployment_with (seq (cons (condition "Available" "False") nil))

abbrev stuck : Value
stuck = deployment_with (seq (cons (condition "Progressing" "False") nil))

abbrev python : Python
python = record { parse_int = parse_int; show = λ v. "?"; type_error_text = "?" }

abbrev stream : List Item
stream = event (dict (attribute "object" rolled_out end)) 10 ∷ []

abbrev cluster : Cluster
cluster = record { patch = returned tt; read = returned rolled_out; start = 5; stream = stream }

deployment_ready-IsRolledOut_example : IsRolledOut parse_int rolled_out (pos 2)
unfolding deployment_ready get_field get_int_field availability
deployment_ready-IsRolledOut_example =
    deployment_ready-IsRolledOut parse_int rolled_out (pos 2) refl

perform_restart_sound_example :
    (patched : Unit {0}) × (read : Value) × (generation : ℤ) × (cluster.patch ≡ returned patched)
    × (cluster.read ≡ returned read)
    × (extract_generation parse_int read ≡ some generation)
    × (found : IsComplete python "home" "lights" 60 65 generation stream) × (obj : Value)
    × (extract_deployment_from_event found.shown ≡ some obj)
    × IsRolledOut parse_int obj generation
unfolding perform_restart final_status attempt trigger_restart extract_generation wait_for_rollout
    watch look extract_deployment_from_event detect_rollout_failure deployment_ready availability
perform_restart_sound_example = perform_restart_sound python "home" "lights" 60 cluster refl

perform_restart_running_example :
    perform_restart python "home" "lights" 60 cluster ≡ record { state = running; message = none }
unfolding extract_generation look extract_deployment_from_event detect_rollout_failure
    deployment_ready availability
perform_restart_running_example =
    perform_restart_running python "home" "lights" 60 cluster rolled_out (pos 2) refl refl refl
      (record {
        before = [];
        shown = dict (attribute "object" rolled_out end);
        now = 10;
        after = [];
        splits = refl;
        waited = tt;
        completes = refl;
      })

abbrev answering : Env
answering = record { dumps = λ j. "{}"; gateway = λ h p. status 200; invoke = λ k r m. (true, m) }

abbrev tabs : TabStatus
tabs = record { last = idle ∷ []; sse = init }

abbrev k8s : KubernetesConfig
k8s = record { namespace = "home"; deployment = "lights" }

abbrev lights : TabConfig
lights = record {
  text = "Lights";
  icon_url = "/icon.svg";
  iframe_url = "http://lights";
  tab_color = none;
  k8s = some k8s;
}

abbrev one_request : Service
one_request = record {
  inflight = (("home", "lights"), 0) ∷ [];
  requests = ("home", "lights") ∷ [];
  workers = [];
  tabs = tabs;
}

Reach-single_worker_example :
    (count ("home", "lights") one_request.workers ≤ 1)
    × (0 < count ("home", "lights") one_request.workers
        → (i : ℕ) → reserve ("home", "lights") i one_request ≡ none)
unfolding reserve has put
Reach-single_worker_example =
    Reach-single_worker answering tabs (next here (reserves ("home", "lights") 0 refl))
      ("home", "lights")

abbrev one_tab : ConfigService
one_tab = record { tabs = lights ∷ [] }

abbrev idle_service : Service
idle_service = record { inflight = []; requests = []; workers = []; tabs = tabs }

restart_endpoint_twice_example :
    let (first, s) = restart_endpoint answering 0 one_tab idle_service in
    let (second, s') = restart_endpoint answering 0 one_tab s in
    ((first.status_code ≡ 409) ↔ (has idle_service.inflight ("home", "lights") ≡ true))
    × (second.status_code ≡ 409)
    × (s' ≡ s)
restart_endpoint_twice_example =
    restart_endpoint_twice answering 0 0 one_tab idle_service lights lights k8s refl refl refl refl
