-- ===== src/Testing/User/Vouched.antt =====
-- Whom `get_current_user` answers with outside the testing mode.
use zigbee_control.Prelude.{
  ◌≡◌, refl, ap, sym, ◌∙◌, subst, if◌then◌else◌, ◌⊎◌, inl, inr, String, Bool, true, false, not,
  ◌&&◌, Option, none, some, Bool-cases, truthy,
}
use zigbee_control.Prelude.Results.{Result, ok, err, >>=-eq-ok, ◌>>=◌, ok-injective}
use zigbee_control.Settings.{Settings, is_testing}
use zigbee_control.Auth.Roles.{AuthService}
use zigbee_control.Auth.Tokens.{
  AuthenticationException, AuthContext, Request, extract_token_from_request,
}
use zigbee_control.Auth.Access.{meets}
use zigbee_control.Oidc.Login.{raised}
use zigbee_control.Testing.{TestingService}
use zigbee_control.Testing.User.{
  user_info, is_empty, recognized, known_context, no_recognized_role, validated_token, oidc_user,
  get_current_user,
}

module _ (validate : String → Result AuthenticationException AuthContext)
    (service : AuthService) where
  -- The hook stored the context, or the request carries a token that is valid for it.
  pub data IsKnown (stored : Option AuthContext) (request : Request) (context : AuthContext)
      : Type 0 where
    by_hook : stored ≡ some context → IsKnown stored request context
    by_token :
        (token : String)
        → extract_token_from_request request ≡ some token
        → validate token ≡ ok context
        → IsKnown stored request context

  raised-ok :
      {A : Type 0} (r : Result AuthenticationException A) (a : A) → raised r ≡ ok a → r ≡ ok a
  raised-ok (ok b) a h = ap ok (ok-injective refl h)
  raised-ok (err e) a h = cc

  validated_token-IsKnown :
      (token : Option String) (request : Request) (stored : Option AuthContext)
      (context : AuthContext)
      → extract_token_from_request request ≡ token
      → validated_token validate service token ≡ ok context
      → IsKnown stored request context
  validated_token-IsKnown none request stored context e h = cc
  validated_token-IsKnown (some token) request stored context e h =
      elim (Bool-cases (truthy token)) [
        | inl given ↦ by_token token e (raised-ok (validate token) context (rw given at h))
        | inr empty ↦ absurd (cc (rw empty at h))
      ]

  known_context-IsKnown :
      (stored : Option AuthContext) (request : Request) (context : AuthContext)
      → known_context validate service stored request ≡ ok context
      → IsKnown stored request context
  known_context-IsKnown (some c) request context h = by_hook (ap some (ok-injective refl h))
  known_context-IsKnown none request context h =
      validated_token-IsKnown (extract_token_from_request request) request none context refl h

  recognized_if :
      (empty : Bool) (found context : AuthContext)
      → (if not empty && not (meets found.roles service.hierarchy_roles)
          then err no_recognized_role
          else ok (user_info found))
        ≡ ok (user_info context)
      → (found ≡ context) × ((empty ≡ true) ⊎ (meets context.roles service.hierarchy_roles ≡ true))
  recognized_if true found context h = (cc, inl refl)
  recognized_if false found context h =
      elim (Bool-cases (meets found.roles service.hierarchy_roles)) [
        | inl e ↦
            let same : found ≡ context = cc (rw e at h) in
            (same, inr (subst (λ c. meets c.roles service.hierarchy_roles ≡ true) same e))
        | inr e ↦ absurd (cc (rw e at h))
      ]

  recognized-ok :
      (found context : AuthContext)
      → recognized service found ≡ ok (user_info context)
      → (found ≡ context)
        × ((is_empty service.hierarchy_roles ≡ true)
            ⊎ (meets context.roles service.hierarchy_roles ≡ true))
  unfolding recognized
  recognized-ok found context h = recognized_if (is_empty service.hierarchy_roles) found context h

  outside_testing :
      (config : Settings) (stored : Option AuthContext) (request : Request) (t : TestingService)
      → is_testing config ≡ false
      → config.oidc_enabled ≡ true
      → get_current_user validate service config stored request t
        ≡ (known_context validate service stored request >>= recognized service, t)
  unfolding get_current_user oidc_user
  outside_testing config stored request t live on = simp (live, on) refl

  -- Outside the testing mode and with OIDC enabled, the answer is a user only for a context that the
  -- hook stored or a valid token of the request vouches for, and only if one of its roles is in the
  -- hierarchy or there is none.
  pub get_current_user-IsKnown :
      (config : Settings) (stored : Option AuthContext) (request : Request) (t : TestingService)
      (context : AuthContext)
      → is_testing config ≡ false
      → config.oidc_enabled ≡ true
      → (get_current_user validate service config stored request t).0 ≡ ok (user_info context)
      → IsKnown stored request context
        × ((is_empty service.hierarchy_roles ≡ true)
            ⊎ (meets context.roles service.hierarchy_roles ≡ true))
  get_current_user-IsKnown config stored request t context live on h =
      let steps = sym (ap (λ out. out.0) (outside_testing config stored request t live on)) ∙ h in
      let (found, known, recognizes) = >>=-eq-ok _ _ steps in
      let (same, role) = recognized-ok found context recognizes in
      (subst (IsKnown stored request) same (known_context-IsKnown stored request found known), role)
