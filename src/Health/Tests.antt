-- ===== src/Health/Tests.antt =====
-- The probes and the drain request at a concrete service.
use Prim.Native.String.{◌++◌ as append}
use zigbee_control.Prelude.{
  ◌≡◌, ◌≢◌, ◌⊎◌, ◌↔◌, ℕ, String, true, false, [], ◌∷◌, All, truthy, string_eq,
}
use zigbee_control.Prelude.Results.{Result, ok}
use zigbee_control.Json.{Fields, bool, end, field}
use zigbee_control.Settings.{load, default_environment}
use zigbee_control.Lifecycle.{init_coordinator, is_shutting_down, WaitAnswer, ready, shut_down}
use zigbee_control.Health.{HealthService, Health, check_readyz, drain, unauthorized, status_body}
use zigbee_control.Health.Readiness.{IsFine, check_readyz_200}
use zigbee_control.Health.Drain.{drain_exact}

abbrev at_once : ℕ → ℕ → WaitAnswer × ℕ
at_once handler remaining = (ready, 0)

abbrev service : HealthService
service = record {
  settings = load (record default_environment { drain_auth_key = "k" });
  healthz_checks = [];
  readyz_checks = ("database", 1) ∷ [];
}

abbrev check : ℕ → Result String Fields
check number = ok (field "ok" (bool true) end)

check_readyz_200_example :
    ((h : Health) × (check_readyz check (init_coordinator 600) service ≡ ok h)
      × (h.status_code ≡ 200))
    ↔ ((is_shutting_down (init_coordinator 600) ≡ false) × All (IsFine check) service.readyz_checks)
check_readyz_200_example = check_readyz_200 check (init_coordinator 600) service

drain_exact_example :
    let (answer, after) = drain at_once "Bearer k" service (init_coordinator 600) in
    ((((truthy service.settings.drain_auth_key ≡ false)
          ⊎ ("Bearer k" ≢ append "Bearer " service.settings.drain_auth_key))
        × (drain at_once "Bearer k" service (init_coordinator 600)
            ≡ (unauthorized at_once, init_coordinator 600)))
      ⊎ ((truthy service.settings.drain_auth_key ≡ true)
          × ("Bearer k" ≡ append "Bearer " service.settings.drain_auth_key)
          × (after ≡ shut_down at_once (init_coordinator 600))
          × (answer.status_code ≡ 200)
          × ((run : ℕ → Result String Fields) (probed : HealthService)
              → check_readyz run after probed
                ≡ ok (record { body = status_body "shutting down" false; status_code = 503 }))))
drain_exact_example = drain_exact at_once "Bearer k" service (init_coordinator 600)
