-- ===== src/Errors/Envelope.antt =====
-- What a client can read off the status of an error answer.
use zigbee_control.Prelude.{◌≡◌, ◌↔◌, ◌≤◌, String, true, Option, arith}
use zigbee_control.Errors.{
  Exception, business, authentication, authorization, authentication_exception,
  authorization_exception, bad_request, not_found, method_not_allowed, internal_server_error,
  pydantic, other_exception, validation, record_not_found, resource_conflict, invalid_operation,
  route_not_available, other_business, handle_exception,
}

module _ (correlation : Option String) where
  -- The answer to an exception has a status from 400 to 500 and marks the request for a rollback.
  -- Its status is 401 exactly for a failed authentication, whose message is the answer's error, and
  -- 403 exactly for a failed authorization.
  pub handle_exception_status :
      (e : Exception)
      → let (answer, needs_rollback) = handle_exception correlation e in
        (400 ≤ answer.status_code)
        × (answer.status_code ≤ 500)
        × (needs_rollback ≡ true)
        × ((answer.status_code ≡ 401) ↔ (e ≡ authentication_exception answer.error))
        × ((answer.status_code ≡ 403) ↔ (e ≡ authorization_exception answer.error))
  unfolding handle_exception
  handle_exception_status bad_request = ground arith
  handle_exception_status not_found = ground arith
  handle_exception_status method_not_allowed = ground arith
  handle_exception_status internal_server_error = ground arith
  handle_exception_status (pydantic error_list) = ground arith
  handle_exception_status (other_exception text) = ground arith
  handle_exception_status (business authentication text) = ground arith
  handle_exception_status (business authorization text) = ground arith
  handle_exception_status (business validation text) = ground arith
  handle_exception_status (business record_not_found text) = ground arith
  handle_exception_status (business resource_conflict text) = ground arith
  handle_exception_status (business invalid_operation text) = ground arith
  handle_exception_status (business route_not_available text) = ground arith
  handle_exception_status (business (other_business code) text) = ground arith
