-- ===== src/Testing.antt =====
-- The sessions of app/services/testing_service.py and the endpoints of app/api/testing_auth.py, with
-- the guard of app/api/testing_guard.py. A random text is an argument.
pub mod User
pub mod Events
mod Tests
use Prim.Native.String.{String, ◌++◌ as append}
use zigbee_control.Prelude.{
  ℕ, Bool, true, false, Option, none, some, List, [], ◌∷◌, if◌then◌else◌, string_eq, truthy,
}
use zigbee_control.Prelude.Int.{pos}
use zigbee_control.Prelude.Results.{Result, ok, err}
use zigbee_control.Dict.{Dict, get, put, pop, has}
use zigbee_control.Settings.{Settings, is_testing}
use zigbee_control.Errors.{Exception, route_not_available_exception}
use zigbee_control.Auth.Access.Hook.{TestSession}
use zigbee_control.Auth.Cookies.{SetCookie, set_cookie}
use zigbee_control.Oidc.Login.{cookie_settings}

-- The two attributes of the class, which all instances share.
pub record TestingService : Type 0 where
  pub sessions : Dict String TestSession
  pub forced_auth_error : Option ℕ

abbrev pub no_sessions : TestingService
no_sessions = record { sessions = []; forced_auth_error = none }

abbrev pub or_empty : Option (List String) → List String
or_empty none = []
or_empty (some roles) = roles

-- `random` is `secrets.token_urlsafe(16)`.
unfoldable pub create_session :
    (random : String)
    → (subject : String) → (name email : Option String) → (roles : Option (List String))
    → TestingService
    → String × TestingService
create_session random subject name email roles t =
    let token = append "test-session-" random in
    (
      token,
      record t {
        sessions =
            put t.sessions token
              (record { subject = subject; name = name; email = email; roles = or_empty roles });
      },
    )

unfoldable pub get_session : TestingService → String → Option TestSession
get_session t token = get t.sessions token

unfoldable pub clear_session : String → TestingService → Bool × TestingService
clear_session token t =
    if has t.sessions token
    then (true, record t { sessions = pop t.sessions token })
    else (false, t)

unfoldable pub clear_all_sessions : TestingService → TestingService
clear_all_sessions t = record t { sessions = [] }

unfoldable pub set_forced_auth_error : (status_code : ℕ) → TestingService → TestingService
set_forced_auth_error status_code t = record t { forced_auth_error = some status_code }

unfoldable pub consume_forced_auth_error : TestingService → Option ℕ × TestingService
consume_forced_auth_error t = (t.forced_auth_error, record t { forced_auth_error = none })

-- An answer without its body, with its cookies.
pub record Answer : Type 0 where
  pub status : ℕ
  pub cookies : List SetCookie

-- The blueprint's guard: outside the testing mode the view is not called, and the answer is the one
-- that the handler of `RouteNotAvailableException` builds.
unfoldable pub reject_if_not_testing :
    Settings → Answer × TestingService → TestingService → Result Exception Answer × TestingService
reject_if_not_testing config (answer, after) t =
    if is_testing config then (ok answer, after) else (err route_not_available_exception, t)

module _ (config : Settings) (expiry : String → Option ℕ) where
  abbrev pub session_cookie : (value : String) → (max_age : ℕ) → SetCookie
  session_cookie value max_age =
      set_cookie (cookie_settings config) expiry config.oidc_cookie_name value (pos max_age)

  unfoldable pub create_test_session :
      (random : String) → TestSession → TestingService → Result Exception Answer × TestingService
  unfolding create_session
  create_test_session random session t =
      let (token, after) =
        create_session random session.subject session.name session.email (some session.roles) t in
      reject_if_not_testing config
        (record { status = 201; cookies = session_cookie token 3600 ∷ [] }, after) t

  abbrev pub cleared : Option String → TestingService → TestingService
  cleared none t = t
  cleared (some token) t = if truthy token then (clear_session token t).1 else t

  unfoldable pub clear_test_session :
      (cookie : Option String) → TestingService → Result Exception Answer × TestingService
  unfolding clear_session
  clear_test_session cookie t =
      reject_if_not_testing config
        (record { status = 204; cookies = session_cookie "" 0 ∷ [] }, cleared cookie t) t

  unfoldable pub force_auth_error :
      (status : ℕ) → TestingService → Result Exception Answer × TestingService
  unfolding set_forced_auth_error
  force_auth_error status t =
      reject_if_not_testing config
        (record { status = 204; cookies = [] }, set_forced_auth_error status t) t
