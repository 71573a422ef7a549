-- ===== src/Health/Drain.antt =====
-- Who may drain the application, and what the probes answer afterwards.
use Prim.Native.String.{◌++◌ as append}
use zigbee_control.Prelude.{
  ◌≡◌, ◌≢◌, refl, ◌⊎◌, inl, inr, ℕ, String, true, false, Bool-cases, truthy, ◌==◌, ==-iff,
  string_eq,
}
use zigbee_control.Prelude.Results.{Result, ok}
use zigbee_control.Json.{Fields}
use zigbee_control.Lifecycle.{
  LifecycleCoordinator, WaitAnswer, is_shutting_down, raise_lifecycle_event, shut_down,
}
use zigbee_control.Health.{HealthService, status_body, unauthorized, check_readyz, drain}

module _ (waiter : ℕ → ℕ → WaitAnswer × ℕ) where
  shut_down_shuts : (c : LifecycleCoordinator) → is_shutting_down (shut_down waiter c) ≡ true
  unfolding shut_down is_shutting_down raise_lifecycle_event
  shut_down_shuts c = elim (Bool-cases c.shutting_down) [
    | inl e ↦ simp e refl
    | inr e ↦ simp e refl
  ]

  -- If no key is configured or the header does not carry it as a bearer token, a drain request is
  -- refused and changes nothing. Else the coordinator is shut down, the answer has the status 200, and
  -- every later readiness probe of the coordinator answers 503 without running a check.
  pub drain_exact :
      (auth_header : String) (s : HealthService) (c : LifecycleCoordinator)
      → let (answer, after) = drain waiter auth_header s c in
        ((((truthy s.settings.drain_auth_key ≡ false)
              ⊎ (auth_header ≢ append "Bearer " s.settings.drain_auth_key))
            × (drain waiter auth_header s c ≡ (unauthorized waiter, c)))
          ⊎ ((truthy s.settings.drain_auth_key ≡ true)
              × (auth_header ≡ append "Bearer " s.settings.drain_auth_key)
              × (after ≡ shut_down waiter c)
              × (answer.status_code ≡ 200)
              × ((check : ℕ → Result String Fields) (probed : HealthService)
                  → check_readyz check after probed
                    ≡ ok (record { body = status_body "shutting down" false; status_code = 503 }))))
  unfolding drain check_readyz
  drain_exact auth_header s c = elim (Bool-cases (truthy s.settings.drain_auth_key)) [
    | inr missing ↦ inl (inl missing, simp missing refl)
    | inl given ↦ elim (Bool-cases (auth_header == append "Bearer " s.settings.drain_auth_key)) [
      | inr other ↦ inl (
        inr (λ e.
            cc ((==-iff auth_header (append "Bearer " s.settings.drain_auth_key)).1 e, other)),
        simp (given, other) refl,
      )
      | inl same ↦
          simp (given, same)
            (inr (
              refl,
              (==-iff auth_header (append "Bearer " s.settings.drain_auth_key)).0 same,
              refl,
              refl,
              λ check probed. simp (shut_down_shuts c) refl,
            ))
    ]
  ]
