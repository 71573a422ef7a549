-- ===== src/Startup/Readiness.antt =====
-- What an application that was created is like, and when it reports itself as ready.
use zigbee_control.Prelude.{
  ◌≡◌, refl, sym, ap, subst, ◌↔◌, ◌⊎◌, inl, inr, ℕ, String, Bool, true, false, Option, none, some,
  [], ◌∷◌, if◌then◌else◌, arith, Bool-cases, ◌==◌, ==-iff, nat_eq, string_eq, All,
}
use zigbee_control.Prelude.Results.{Result, ok, err, ◌>>=◌, >>=-eq-ok, ok-injective}
use zigbee_control.Auth.Tokens.{find_field}
use zigbee_control.Json.{truthy_json, Fields}
use zigbee_control.Dict.{Dict}
use zigbee_control.Settings.{Settings, validate_production_config}
use zigbee_control.Settings.Loading.{IsStartable, validate_production_config_iff}
use zigbee_control.Lifecycle.{
  is_shutting_down, raise_lifecycle_event, fire_startup, register_lifecycle_notification,
  register_shutdown_waiter, init_coordinator,
}
use zigbee_control.FrontendVersion.{create}
use zigbee_control.Health.{register_readyz, Health, check_readyz, passed}
use zigbee_control.Health.Readiness.{check_readyz_200, IsFine}
use zigbee_control.Config.{ConfigService}
use zigbee_control.Config.Loading.{ServiceError}
use zigbee_control.Auth.Roles.{AuthService, ViewFunc, validate_allow_roles_at_startup}
use zigbee_control.Auth.RoleMap.{RoleMap}
use zigbee_control.Startup.{
  Numbers, App, GatewayAnswer, answered, unreachable, check_sse_gateway_readiness, create_app,
  or_configuration_error, or_tabs_error, or_unknown_role, check_views, annotated, constructed,
  roles_checked, finished, after_services, start_background_services,
}

gateway_passed :
    (answer : GatewayAnswer)
    → (passed (check_sse_gateway_readiness answer) ≡ true) ↔ (answer ≡ answered 200)
unfolding check_sse_gateway_readiness find_field truthy_json
gateway_passed (unreachable message) = ((λ h. cc), λ e. cc)
gateway_passed (answered code) = elim (Bool-cases (code == 200)) [
  | inl good ↦ rw good ((λ h. ap answered ((==-iff code 200).0 good)), λ e. refl)
  | inr bad ↦ rw bad ((λ h. cc), λ e. ground (arith, ==-iff code 200))
]

validated-ok : (r : Result String (Unit {0})) → or_configuration_error r ≡ ok tt → r ≡ ok tt
validated-ok (ok tt) h = refl
validated-ok (err message) h = absurd (cc h)

known-ok : (o : Option String) → or_unknown_role o ≡ ok tt → o ≡ none
known-ok none h = refl
known-ok (some endpoint) h = absurd (cc h)

-- With OIDC enabled the roles are set up, and every role that a view allows is known.
abbrev pub HasKnownRoles : Dict String ViewFunc → Result String AuthService → Type 0
HasKnownRoles views auth_service =
    (service : AuthService) × (auth_service ≡ ok service)
    × (validate_allow_roles_at_startup views service ≡ none)

views-ok :
    (views : Dict String ViewFunc) (auth_service : Result String AuthService)
    → check_views views auth_service ≡ ok tt
    → HasKnownRoles views auth_service
views-ok views (err message) h = absurd (cc h)
views-ok views (ok service) h =
    (service, refl, known-ok (validate_allow_roles_at_startup views service) h)

module _ (numbers : Numbers) (cleanup_age : ℕ) where
  abbrev IsUp : App → Type 0
  IsUp app =
      (is_shutting_down app.lifecycle ≡ false)
      × (app.health.readyz_checks ≡ ("sse_gateway", numbers.sse_gateway) ∷ [])

  constructed-IsUp :
      (settings : Settings) (config : ConfigService) (role_map : Option RoleMap)
      → IsUp (constructed numbers cleanup_age settings config role_map)
  unfolding is_shutting_down init_coordinator register_lifecycle_notification register_readyz
  constructed-IsUp settings config role_map = ground arith

  started-IsUp :
      (app : App)
      → IsUp app
      → IsUp
          (after_services numbers cleanup_age (start_background_services numbers cleanup_age app))
  unfolding is_shutting_down start_background_services fire_startup register_lifecycle_notification
      register_shutdown_waiter raise_lifecycle_event create
  started-IsUp app v = ground arith

  readyz_of_up :
      (app : App) (check : ℕ → Result String Fields) (answer : GatewayAnswer)
      → IsUp app
      → check numbers.sse_gateway ≡ ok (check_sse_gateway_readiness answer)
      → ((h : Health) × (check_readyz check app.lifecycle app.health ≡ ok h)
          × (h.status_code ≡ 200))
        ↔ (answer ≡ answered 200)
  readyz_of_up app check answer (up, checks) returned =
      let probe = check_readyz_200 check app.lifecycle app.health in
      let fine = gateway_passed answer in
      (
        (λ h.
            let (result, given, good) =
              (subst (λ l. All (IsFine check) l) checks (probe.0 h).1).0 in
            fine.0 (subst (λ r. passed r ≡ true) (ok-injective given returned) good)),
        λ e. probe.1 (
          up,
          subst (λ l. All (IsFine check) l) (sym checks)
              ((check_sse_gateway_readiness answer, returned, fine.1 e), tt),
        ),
      )

  module _ (settings : Settings) (config_service : Result ServiceError ConfigService)
      (auth_service : Result String AuthService) (views : Dict String ViewFunc)
      (annotate : AuthService → RoleMap) (skip_background_services : Bool) (app : App) where
    -- The steps of a construction that returned.
    abbrev pub WasCreated : Type 0
    WasCreated =
        (validate_production_config settings ≡ ok tt)
        × ((settings.oidc_enabled ≡ false) ⊎ HasKnownRoles views auth_service)
        × (config : ConfigService) × (finished numbers cleanup_age skip_background_services
              (constructed numbers cleanup_age settings config (annotated annotate auth_service))
            ≡ app)

    finished-IsUp :
        (skip : Bool) (fresh : App) → IsUp fresh → IsUp (finished numbers cleanup_age skip fresh)
    finished-IsUp true fresh v = v
    finished-IsUp false fresh v = started-IsUp fresh v

    roles-ok :
        (enabled : Bool)
        → (if enabled then check_views views auth_service else ok tt) ≡ ok tt
        → (enabled ≡ false) ⊎ HasKnownRoles views auth_service
    roles-ok false h = inl refl
    roles-ok true h = inr (views-ok views auth_service h)

    pub create_app-WasCreated :
        create_app numbers cleanup_age settings config_service auth_service views annotate
            skip_background_services
          ≡ ok app
        → WasCreated
    unfolding create_app
    create_app-WasCreated h =
        let build = λ (config : ConfigService).
          finished numbers cleanup_age skip_background_services
            (constructed numbers cleanup_age settings config (annotated annotate auth_service)) in
        let after_config = λ (config : ConfigService).
          roles_checked numbers cleanup_age settings views auth_service >>= λ _.
          ok (build config) in
        let (_, valid, rest) =
          >>=-eq-ok (or_configuration_error (validate_production_config settings))
            (λ _. or_tabs_error config_service >>= after_config) h in
        let (config, read, rest') = >>=-eq-ok (or_tabs_error config_service) after_config rest in
        let (_, known, made) =
          >>=-eq-ok (roles_checked numbers cleanup_age settings views auth_service)
            (λ _. ok (build config)) rest' in
        (
          validated-ok (validate_production_config settings) valid,
          roles-ok settings.oidc_enabled known,
          config,
          ok-injective refl made,
        )

    -- An application that was created has settings that can be started with, and, with OIDC enabled, only
    -- views whose roles are known; and its readiness probe answers 200 exactly if the SSE gateway answers
    -- the probe's request with 200.
    pub create_app_readyz :
        (check : ℕ → Result String Fields) (answer : GatewayAnswer)
        → create_app numbers cleanup_age settings config_service auth_service views annotate
            skip_background_services
          ≡ ok app
        → check numbers.sse_gateway ≡ ok (check_sse_gateway_readiness answer)
        → IsStartable settings
          × ((settings.oidc_enabled ≡ false) ⊎ HasKnownRoles views auth_service)
          × (((h : Health) × (check_readyz check app.lifecycle app.health ≡ ok h)
                × (h.status_code ≡ 200))
              ↔ (answer ≡ answered 200))
    create_app_readyz check answer made returned =
        let (valid, known, config, same) = create_app-WasCreated made in
        let up = subst IsUp same (
          finished-IsUp skip_background_services _
            (constructed-IsUp settings config (annotated annotate auth_service))) in
        (
          (validate_production_config_iff settings).0 valid,
          known,
          readyz_of_up app check answer up returned,
        )
