-- ===== src/Testing/User/Sessions.antt =====
-- Test sessions and forced errors, from the call that makes them to the answer of `/api/auth/self`.
use Prim.Native.String.{◌++◌ as append}
use zigbee_control.Prelude.{
  ◌≡◌, refl, ap, ◌∙◌, ℕ, String, true, false, ◌&&◌, Option, none, some, List, ◌==◌, ==-refl, nat_eq,
  string_eq, truthy,
}
use zigbee_control.Prelude.Results.{Result, ok}
use zigbee_control.Prelude.Texts.{starts_with, starts_with-append, truthy-append}
use zigbee_control.Dict.{get, pop, has, get-put, get-pop}
use zigbee_control.Settings.{Settings, is_testing}
use zigbee_control.Errors.{Exception}
use zigbee_control.Auth.Roles.{AuthService}
use zigbee_control.Auth.Tokens.{AuthenticationException, AuthContext, Request}
use zigbee_control.Auth.Access.Hook.{TestSession, test_context}
use zigbee_control.Testing.{
  TestingService, create_session, get_session, clear_session, set_forced_auth_error,
  consume_forced_auth_error,
}
use zigbee_control.Testing.User.{
  UserAnswer, forced_error, recognized, oidc_user, session_or, get_current_user,
}

-- Every token of a test session has the prefix that the endpoint looks for.
token_prefix :
    (random : String)
    → (truthy (append "test-session-" random)
        && starts_with "test-session-" (append "test-session-" random))
      ≡ true
token_prefix random =
    rw (truthy-append "test-session-" random refl, starts_with-append "test-session-" random) refl

clear_session_known :
    (token : String) (session : TestSession) (t : TestingService)
    → get t.sessions token ≡ some session
    → clear_session token t ≡ (true, record t { sessions = pop t.sessions token })
unfolding clear_session has
clear_session_known token session t known = simp known refl

module _ (validate : String → Result AuthenticationException AuthContext)
    (service : AuthService) where
  -- A forced error is answered once: the next call, whatever it asks, answers as if no error had
  -- been set, and leaves the sessions as they were.
  pub forced_error_once :
      (config : Settings) (stored again : Option AuthContext) (request next : Request)
      (t : TestingService) (status : ℕ)
      → is_testing config ≡ true
      → (status == 0) ≡ false
      → let (answer, after) =
          get_current_user validate service config stored request
            (set_forced_auth_error status t) in
        (answer ≡ ok (forced_error status))
        × (get_current_user validate service config again next after
            ≡ get_current_user validate service config again next
                (record t { forced_auth_error = none }))
  unfolding get_current_user set_forced_auth_error
  forced_error_once config stored again request next t status testing given =
      rw (testing, given) (refl, refl)

  with_session :
      (config : Settings) (stored : Option AuthContext) (request : Request) (t : TestingService)
      (random : String)
      → is_testing config ≡ true
      → t.forced_auth_error ≡ none
      → request.access_cookie ≡ some (append "test-session-" random)
      → (get_current_user validate service config stored request t).0
        ≡ session_or validate service
            (get t.sessions (append "test-session-" random))
            (oidc_user validate service config stored request)
  unfolding get_current_user get_session consume_forced_auth_error
  with_session config stored request t random testing unset cookie =
      simp (testing, unset, cookie) (simp (token_prefix random) refl)

  -- In the testing mode, without a forced error, a request with the token of a new session is
  -- answered with the session's user and the roles that they cover, if the hierarchy knows one of
  -- them; once the session was cleared it is answered as without a session.
  pub session_answers :
      (config : Settings) (stored : Option AuthContext) (request : Request) (t : TestingService)
      (random subject : String) (name email : Option String) (roles : List String)
      → is_testing config ≡ true
      → t.forced_auth_error ≡ none
      → request.access_cookie ≡ some (append "test-session-" random)
      → let (token, after) = create_session random subject name email (some roles) t in
        let session : TestSession = record {
          subject = subject;
          name = name;
          email = email;
          roles = roles;
        } in
        (token ≡ append "test-session-" random)
        × ((get_current_user validate service config stored request after).0
            ≡ recognized service (test_context service session))
        × ((get_current_user validate service config stored request (clear_session token after).1).0
            ≡ oidc_user validate service config stored request)
  unfolding create_session
  session_answers config stored request t random subject name email roles testing unset cookie =
      let token = append "test-session-" random in
      let session : TestSession = record {
        subject = subject;
        name = name;
        email = email;
        roles = roles;
      } in
      let (_, after) = create_session random subject name email (some roles) t in
      let cleared : TestingService = record after { sessions = pop after.sessions token } in
      let made : get after.sessions token ≡ some session = simp (get-put, ==-refl) refl in
      let gone : get cleared.sessions token ≡ none = simp (get-pop, ==-refl) refl in
      let clears : (clear_session token after).1 ≡ cleared =
        ap (λ out. out.1) (clear_session_known token session after made) in
      let without = oidc_user validate service config stored request in
      let answer : Option TestSession → Result Exception UserAnswer =
        λ s. session_or validate service s without in
      (
        refl,
        with_session config stored request after random testing unset cookie ∙ ap answer made,
        ap (λ s. (get_current_user validate service config stored request s).0) clears
            ∙ with_session config stored request cleared random testing unset cookie
            ∙ ap answer gone,
      )
