-- ===== src/Health.antt =====
-- app/services/health_service.py, to which the endpoints of app/api/health.py pass the call on. A
-- check is known by a number; `check` is what its call returns, or the exception that it raises,
-- which nothing catches.
pub mod Drain
pub mod Readiness
mod Tests
use Prim.Native.String.{◌++◌ as append}
use zigbee_control.Prelude.{
  ℕ, String, Bool, true, false, not, ◌&&◌, Option, none, some, List, [], ◌∷◌, ◌++◌, if◌then◌else◌,
  ◌==◌, string_eq, truthy,
}
use zigbee_control.Prelude.Results.{Result, ok, err, ◌>>=◌}
use zigbee_control.Json.{Json, Fields, bool, text, object, truthy_json}
use zigbee_control.Dict.{Dict, put}
use zigbee_control.Settings.{Settings}
use zigbee_control.Auth.Tokens.{find_field}
use zigbee_control.Lifecycle.{LifecycleCoordinator, is_shutting_down, WaitAnswer, shut_down}

pub record HealthService : Type 0 where
  pub settings : Settings
  pub healthz_checks : List (String × ℕ)
  pub readyz_checks : List (String × ℕ)

unfoldable pub register_healthz : String → ℕ → HealthService → HealthService
register_healthz name check s = record s { healthz_checks = s.healthz_checks ++ (name, check) ∷ [] }

unfoldable pub register_readyz : String → ℕ → HealthService → HealthService
register_readyz name check s = record s { readyz_checks = s.readyz_checks ++ (name, check) ∷ [] }

-- A response: its dict and the status.
pub record Health : Type 0 where
  pub body : Dict String Json
  pub status_code : ℕ

abbrev pub status_body : (status : String) → (ready : Bool) → Dict String Json
status_body status ready = ("status", text status) ∷ ("ready", bool ready) ∷ []

-- `check_result.get("ok", True)` as a condition.
abbrev pub passed_field : Option Json → Bool
passed_field none = true
passed_field (some value) = truthy_json value

abbrev pub passed : Fields → Bool
passed result = passed_field (find_field "ok" result)

module _ (check : ℕ → Result String Fields) where
  unfoldable pub run_healthz :
      List (String × ℕ) → Dict String Json → Result String (Dict String Json)
  run_healthz [] result = ok result
  run_healthz ((name, number) ∷ rest) result =
      check number >>= λ answer. run_healthz rest (put result name (object answer))

  unfoldable pub check_healthz : HealthService → Result String Health
  unfolding run_healthz
  check_healthz s = run_healthz s.healthz_checks (status_body "alive" true) >>= λ result.
      ok (record { body = result; status_code = 200 })

  -- The loop of `check_readyz`, with `result` and `all_ok`.
  unfoldable pub run_readyz :
      List (String × ℕ)
      → Dict String Json
      → (all_ok : Bool) → Result String (Dict String Json × Bool)
  run_readyz [] result all_ok = ok (result, all_ok)
  run_readyz ((name, number) ∷ rest) result all_ok = check number >>= λ answer.
      run_readyz rest (put result name (object answer)) (all_ok && passed answer)

  abbrev pub ready_answer : Dict String Json × Bool → Result String Health
  ready_answer (result, true) = ok (record { body = result; status_code = 200 })
  ready_answer (result, false) = ok (record {
    body = put (put result "ready" (bool false)) "status" (text "not ready");
    status_code = 503;
  })

  unfoldable pub check_readyz : LifecycleCoordinator → HealthService → Result String Health
  unfolding run_readyz is_shutting_down
  check_readyz c s =
      if is_shutting_down c
      then ok (record { body = status_body "shutting down" false; status_code = 503 })
      else (run_readyz s.readyz_checks (status_body "ready" true) true >>= ready_answer)

module _ (waiter : ℕ → ℕ → WaitAnswer × ℕ) where
  abbrev pub unauthorized : Health
  unauthorized = record { body = status_body "unauthorized" false; status_code = 401 }

  -- The shutdown itself raises nothing.
  unfoldable pub drain :
      (auth_header : String) → HealthService → LifecycleCoordinator → Health × LifecycleCoordinator
  drain auth_header s c =
      if not (truthy s.settings.drain_auth_key)
      then (unauthorized, c)
      else if not (auth_header == append "Bearer " s.settings.drain_auth_key)
      then (unauthorized, c)
      else (record { body = status_body "alive" true; status_code = 200 }, shut_down waiter c)
