-- ===== src/Errors.antt =====
-- app/exceptions.py and app/utils/flask_error_handlers.py: the exceptions that a view may raise, and
-- the answer that the registered handler builds for each. Which handler is called is Flask's choice,
-- the handler of the nearest class.
pub mod Envelope
mod Tests
use Prim.Native.String.{String, ◌++◌ as append}
use zigbee_control.Prelude.{
  ℕ, Bool, true, Option, none, some, List, [], ◌∷◌, if◌then◌else◌, truthy, truthy_opt, map,
}
use zigbee_control.Prelude.Texts.{join_with}

-- The subclasses of `BusinessLogicException`; `other_business` is one without a handler of its own.
pub data BusinessClass : Type 0 where
  record_not_found resource_conflict invalid_operation route_not_available : BusinessClass
  authentication authorization validation : BusinessClass
  other_business : (error_code : String) → BusinessClass

-- One error of Pydantic: its `loc`, each part as a text, and its `msg`.
pub record FieldError : Type 0 where
  pub loc : List String
  pub msg : String

pub data Exception : Type 0 where
  bad_request not_found method_not_allowed internal_server_error : Exception
  pydantic : List FieldError → Exception
  business : BusinessClass → (message : String) → Exception
  other_exception : (message : String) → Exception

unfoldable pub error_code : BusinessClass → String
error_code record_not_found = "RECORD_NOT_FOUND"
error_code resource_conflict = "RESOURCE_CONFLICT"
error_code invalid_operation = "INVALID_OPERATION"
error_code route_not_available = "ROUTE_NOT_AVAILABLE"
error_code authentication = "AUTHENTICATION_REQUIRED"
error_code authorization = "AUTHORIZATION_FAILED"
error_code validation = "VALIDATION_FAILED"
error_code (other_business code) = code

-- The constructors; `lower` is `str.lower`.
abbrev pub record_not_found_exception : (resource_type identifier : String) → Exception
record_not_found_exception resource_type identifier =
    business record_not_found
      (append resource_type (append " " (append identifier " was not found")))

abbrev pub resource_conflict_exception :
    (lower : String → String) → (resource_type identifier : String) → Exception
resource_conflict_exception lower resource_type identifier = business resource_conflict (
    append "A "
      (append (lower resource_type) (append " with " (append identifier " already exists"))))

abbrev pub invalid_operation_exception : (operation cause : String) → Exception
invalid_operation_exception operation cause =
    business invalid_operation (append "Cannot " (append operation (append " because " cause)))

abbrev pub route_not_available_exception : Exception
route_not_available_exception =
    business route_not_available
      "This endpoint is only available when the server is running in testing mode"

abbrev pub authentication_exception : String → Exception
authentication_exception message = business authentication message

abbrev pub authorization_exception : String → Exception
authorization_exception message = business authorization message

abbrev pub validation_exception : String → Exception
validation_exception message = business validation message

-- The `details` of an answer.
pub data Details : Type 0 where
  message : String → Details
  errors : List (String × String) → Details

pub record ErrorResponse : Type 0 where
  pub error : String
  pub details : Details
  pub code : Option String
  pub correlation_id : Option String
  pub status_code : ℕ

abbrev pub present : Option String → Option String
present s = if truthy_opt s then s else none

module _ (current_correlation_id : Option String) where
  unfoldable pub build_error_response :
      String → Details → (code : Option String) → (status_code : ℕ) → ErrorResponse
  build_error_response error details code status_code = record {
    error = error;
    details = details;
    code = present code;
    correlation_id = present current_correlation_id;
    status_code = status_code;
  }

  abbrev pub field_detail : FieldError → String × String
  field_detail e = (e.msg, join_with "." e.loc)

  abbrev pub business_status : BusinessClass → ℕ
  business_status authentication = 401
  business_status authorization = 403
  business_status validation = 400
  business_status record_not_found = 404
  business_status resource_conflict = 409
  business_status invalid_operation = 409
  business_status route_not_available = 400
  business_status (other_business code) = 400

  abbrev pub business_detail : BusinessClass → String
  business_detail authentication = "Authentication is required to access this resource"
  business_detail authorization = "You do not have permission to access this resource"
  business_detail validation = "The request contains invalid data"
  business_detail record_not_found = "The requested resource could not be found"
  business_detail resource_conflict = "A resource with those details already exists"
  business_detail invalid_operation = "The requested operation cannot be performed"
  business_detail route_not_available = "Testing endpoints require FLASK_ENV=testing"
  business_detail (other_business code) = "A business logic operation failed"

  -- The answer, and the flag `needs_rollback` of the request, which every handler sets.
  unfoldable pub handle_exception : Exception → ErrorResponse × Bool
  unfolding build_error_response error_code
  handle_exception bad_request = (
    build_error_response "Invalid JSON" (message "Request body must be valid JSON") none 400,
    true,
  )
  handle_exception (pydantic error_list) = (
    build_error_response "Validation failed" (errors (map field_detail error_list)) none 400,
    true,
  )
  handle_exception not_found = (
    build_error_response "Resource not found" (message "The requested resource could not be found")
        none 404,
    true,
  )
  handle_exception method_not_allowed = (
    build_error_response "Method not allowed"
        (message "The HTTP method is not allowed for this endpoint") none 405,
    true,
  )
  handle_exception internal_server_error = (
    build_error_response "Internal server error" (message "An unexpected error occurred") none 500,
    true,
  )
  handle_exception (business cls text) = (
    build_error_response text (message (business_detail cls)) (some (error_code cls))
        (business_status cls),
    true,
  )
  handle_exception (other_exception text) =
      (build_error_response "Internal server error" (message text) none 500, true)
