-- ===== src/Errors/Tests.antt =====
-- The answers to concrete exceptions.
use zigbee_control.Prelude.{◌≡◌, refl, none, [], ◌∷◌}
use zigbee_control.Errors.{pydantic, record_not_found_exception, handle_exception, errors}

missing_error :
    (handle_exception none (record_not_found_exception "Tab" "3")).0.error ≡ "Tab 3 was not found"
unfolding handle_exception
missing_error = refl

invalid_details :
    (handle_exception none
      (pydantic (record { loc = "tabs" ∷ "0" ∷ []; msg = "bad" } ∷ []))).0.details
    ≡ errors (("bad", "tabs.0") ∷ [])
unfolding handle_exception
invalid_details = refl
