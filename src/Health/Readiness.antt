-- ===== src/Health/Readiness.antt =====
-- When the readiness probe answers 200.
use zigbee_control.Prelude.{
  ◌≡◌, refl, ap, ◌↔◌, inl, inr, ℕ, String, Bool, true, false, List, [], ◌∷◌, All, Bool-cases,
  string_eq, arith,
}
use zigbee_control.Prelude.Results.{Result, ok, err, ◌>>=◌, Result-cases, ok-injective}
use zigbee_control.Json.{Json, Fields, object}
use zigbee_control.Dict.{Dict, put}
use zigbee_control.Lifecycle.{LifecycleCoordinator, is_shutting_down}
use zigbee_control.Health.{
  HealthService, Health, status_body, passed, run_readyz, ready_answer, check_readyz,
}

module _ (check : ℕ → Result String Fields) where
  -- The check returned, and its result is fine.
  abbrev pub IsFine : String × ℕ → Type 0
  IsFine (name, number) = (answer : Fields) × (check number ≡ ok answer) × (passed answer ≡ true)

  abbrev Succeeds : Result String (Dict String Json × Bool) → Type 0
  Succeeds r = (result : Dict String Json) × (r ≡ ok (result, true))

  run_readyz-false :
      (checks : List (String × ℕ)) (result : Dict String Json)
      → Succeeds (run_readyz check checks result false)
      → ⊥
  unfolding run_readyz
  run_readyz-false [] result (found, h) = cc
  run_readyz-false ((name, number) ∷ rest) result (found, h) = elim (Result-cases (check number)) [
    | inr (e, failed) ↦ absurd (cc (simp failed at h))
    | inl (answer, given) ↦ run_readyz-false rest _ (found, simp given at h)
  ]

  run_readyz-IsFine :
      (checks : List (String × ℕ)) (result : Dict String Json)
      → Succeeds (run_readyz check checks result true) ↔ All IsFine checks
  unfolding run_readyz
  run_readyz-IsFine [] result = (λ h. tt, λ h. (result, refl))
  run_readyz-IsFine ((name, number) ∷ rest) result = (
    λ (found, h). elim (Result-cases (check number)) [
      | inr (e, failed) ↦ absurd (cc (simp failed at h))
      | inl (answer, given) ↦ elim (Bool-cases (passed answer)) [
        | inl fine ↦ (
          (answer, given, fine),
          (run_readyz-IsFine rest (put result name (object answer))).0
              (found, simp (given, fine) at h),
        )
        | inr bad ↦ absurd (
            run_readyz-false rest (put result name (object answer)) (found, simp (given, bad) at h))
      ]
    ],
    λ ((answer, given, fine), others).
        let (found, h) = (run_readyz-IsFine rest (put result name (object answer))).1 others in
        (found, simp (given, fine) h),
  )

  answers_200 :
      (r : Result String (Dict String Json × Bool)) (h : Health)
      → (r >>= ready_answer check) ≡ ok h
      → h.status_code ≡ 200
      → Succeeds r
  answers_200 (err e) h e₁ e₂ = cc
  answers_200 (ok (result, true)) h e₁ e₂ = (result, refl)
  answers_200 (ok (result, false)) h e₁ e₂ =
      absurd (omega (arith, ap (λ a. a.status_code) (ok-injective refl e₁)))

  -- The readiness probe answers 200 exactly if the application is not shutting down, and every
  -- registered check returns and its result has no `ok` or a true one.
  pub check_readyz_200 :
      (c : LifecycleCoordinator) (s : HealthService)
      → ((h : Health) × (check_readyz check c s ≡ ok h) × (h.status_code ≡ 200))
        ↔ ((is_shutting_down c ≡ false) × All IsFine s.readyz_checks)
  unfolding check_readyz
  check_readyz_200 c s = (
    λ (h, answered, good). elim (Bool-cases (is_shutting_down c)) [
      | inl down ↦
          absurd
            (omega (arith, ap (λ a. a.status_code) (ok-injective refl (simp down at answered))))
      | inr up ↦ (
        up,
        (run_readyz-IsFine s.readyz_checks (status_body "ready" true)).0
            (answers_200 _ h (simp up at answered) good),
      )
    ],
    λ (up, fine).
        let (result, h) = (run_readyz-IsFine s.readyz_checks (status_body "ready" true)).1 fine in
        (record { body = result; status_code = 200 }, simp (up, h) refl, refl),
  )
