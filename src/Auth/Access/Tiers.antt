-- ===== src/Auth/Access/Tiers.antt =====
-- Who may write may read, and what the roles of the view functions name.
use zigbee_control.Prelude.{
  ◌≡◌, refl, sym, ap, subst, String, true, false, ◌||◌, Option, none, some, List, [], ◌∷◌, contains,
  string_eq, arith, Bool-cases, inl, inr, ◌==◌, ==-iff, ==-refl,
}
use mathlib.Core.Option.{some-injective}
use zigbee_control.Prelude.Results.{ok}
use zigbee_control.Dict.{Dict, get}
use zigbee_control.Auth.Roles.{
  AuthService, ViewFunc, gate, write_gate, by_method, same_letters, resolve_required_role,
  expand_roles, init_roles, tiers, has_unknown, validate_allow_roles_at_startup,
}
use zigbee_control.Auth.Roles.Hierarchy.{covers, has_covered, init-tiers}
use zigbee_control.Auth.Tokens.{AuthContext}
use zigbee_control.Auth.Access.{check_roles, check_required, check_authorization, meets}

-- `meets` with one role is membership.
meets-one : (roles : List String) (role : String) → meets roles (role ∷ []) ≡ contains roles role
unfolding contains
meets-one [] role = refl
meets-one (r ∷ roles) role = ground (arith, meets-one roles role, ==-iff r role, ==-iff role r)

passes-has :
    (context : AuthContext) (service : AuthService) (role : String)
    → check_roles context service (role ∷ []) ≡ ok tt
    → contains context.roles role ≡ true
unfolding check_roles
passes-has context service role = elim (Bool-cases (contains context.roles role)) [
  | inl found ↦ λ _. found
  | inr missing ↦ elim (Bool-cases (meets context.roles service.configured_roles)) [
    | inl known ↦ rw (meets-one context.roles role, check_roles) (rw missing (rw known (λ h. cc)))
    | inr unknown ↦
        rw (meets-one context.roles role, check_roles) (rw missing (rw unknown (λ h. cc)))
  ]
]

has-passes :
    (context : AuthContext) (service : AuthService) (role : String)
    → contains context.roles role ≡ true
    → check_roles context service (role ∷ []) ≡ ok tt
unfolding check_roles
has-passes context service role h = rw (meets-one context.roles role, check_roles) (rw h refl)

-- The write gate is at least as narrow as the read gate.
gates :
    (read write admin : Option String) (additional : List String) (service : AuthService)
    (context : AuthContext) (raw : List String)
    → init_roles read write admin additional ≡ ok service
    → context.roles ≡ expand_roles service raw
    → check_required context service (write_gate write admin) ≡ ok tt
    → check_required context service (gate read) ≡ ok tt
unfolding init_roles covers
gates none write admin more service context raw h r c = refl
gates (some x) none none more service context raw h r c = absurd (cc h)
gates (some x) none (some z) more service context raw h r c = has-passes context service x (
    rw r (
      has_covered (some x) none (some z) more service raw z x h
        (ground (arith, ==-refl z, ==-refl x))
        (subst (λ roles. contains roles z ≡ true) r (passes-has context service z c))))
gates (some x) (some y) admin more service context raw h r c = has-passes context service x (
    rw r (
      has_covered (some x) (some y) admin more service raw y x h
        (ground (arith, ==-refl y, ==-refl x))
        (subst (λ roles. contains roles y ≡ true) r (passes-has context service y c))))

-- Who may write may read: when the roles are set up without an error and the user has the expanded
-- roles of a token, and passes the check of an endpoint without decorators for a method other than
-- GET and HEAD, then the user passes it for every method, GET and HEAD included.
pub write_access_reads :
    (read write admin : Option String) (additional : List String) (service : AuthService)
    (context : AuthContext) (raw : List String) (method other : String)
    → init_roles read write admin additional ≡ ok service
    → context.roles ≡ expand_roles service raw
    → same_letters method "GET" || same_letters method "HEAD" ≡ false
    → check_authorization context service method none ≡ ok tt
    → check_authorization context service other none ≡ ok tt
unfolding check_authorization resolve_required_role by_method check_roles tiers
write_access_reads read write admin additional service context raw method other h r m c =
    let t = init-tiers read write admin additional service h in
    let reading = ap (λ s. gate s.read_role) t in
    let writing = ap (λ s. write_gate s.write_role s.admin_role) t in
    let write_ok =
      subst (λ gate. check_required context service gate ≡ ok tt) (sym writing) (rw m at c) in
    elim (Bool-cases (same_letters other "GET" || same_letters other "HEAD")) [
      | inl e ↦
          rw (e, by_method)
            (subst (λ gate. check_required context service gate ≡ ok tt) reading
              (gates read write admin additional service context raw h r write_ok))
      | inr e ↦ rw (e, by_method) (rw m at c)
    ]

known-contains :
    (configured roles : List String) (role : String)
    → has_unknown configured roles ≡ false
    → contains roles role ≡ true
    → contains configured role ≡ true
unfolding contains
known-contains configured [] role = λ _ h. cc
known-contains configured (r ∷ roles) role = elim (Bool-cases (contains configured r)) [
  | inl e ↦ rw e (ground (arith, known-contains configured roles role, ==-iff role r, e))
  | inr e ↦ rw e (λ h. absurd (cc h))
]

-- If `validate_allow_roles_at_startup` finds no endpoint with an unknown role, every role that an
-- endpoint allows is one that the service knows.
pub startup_no_unknown :
    (endpoints : Dict String ViewFunc) (service : AuthService) (endpoint : String) (func : ViewFunc)
    (role : String)
    → validate_allow_roles_at_startup endpoints service ≡ none
    → get endpoints endpoint ≡ some func
    → contains func.allowed_roles role ≡ true
    → contains service.configured_roles role ≡ true
unfolding validate_allow_roles_at_startup get
startup_no_unknown [] service endpoint func role = λ h e c. absurd (cc e)
startup_no_unknown ((name, view) ∷ rest) service endpoint func role =
    elim (Bool-cases (has_unknown service.configured_roles view.allowed_roles)) [
      | inl bad ↦ rw bad (λ h. absurd (cc h))
      | inr good ↦ elim (Bool-cases (name == endpoint)) [
        | inl here ↦
            rw (good, here)
              (λ h e c.
                known-contains service.configured_roles func.allowed_roles role
                  (subst (λ v. has_unknown service.configured_roles v.allowed_roles ≡ false)
                    (some-injective _ _ e) good)
                  c)
        | inr there ↦ rw (good, there) (startup_no_unknown rest service endpoint func role)
      ]
    ]
