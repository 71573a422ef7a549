-- ===== src/Auth/RoleMap/Origin.antt =====
-- Where the roles of the OpenAPI document come from.
use Prim.Native.Char.{Char}
use zigbee_control.Prelude.{
  ◌≡◌, refl, ap, ◌⊎◌, inl, inr, ℕ, zero, suc, String, Bool, true, false, some, List, [], ◌∷◌,
  if◌then◌else◌, string_eq, Bool-cases, Option-cases, get_elem?,
}
use mathlib.Core.Option.{some-injective}
use zigbee_control.Prelude.Texts.{starts_with}
use zigbee_control.Dict.{Dict, get}
use zigbee_control.Auth.Roles.{AuthService, ViewFunc}
use zigbee_control.Auth.RoleMap.{
  Route, RoleMap, openapi_path, add_methods, add_view, add_routes, annotate_openapi_security,
}
use zigbee_control.Auth.RoleMap.Methods.{
  role_at, Has, ByMethod, add_methods-Has, add_methods-listed, add_methods-origin,
}

module _ (lower : String → String) (sorted : List String → List String) (service : AuthService)
    (is_word : Char → Bool) (view_functions : Dict String ViewFunc) where
  -- A route under /api/ whose view is not marked public has this path, and the role is resolved for one
  -- of its methods.
  pub record ByRoute (routes : List Route) (path method_lower label : String) : Type 0 where
    pub index : ℕ
    pub route : Route
    pub func : ViewFunc
    pub listed : get_elem? routes index ≡ some route
    pub in_api : starts_with "/api/" route.rule ≡ true
    pub viewed : get view_functions route.endpoint ≡ some func
    pub not_public : func.is_public ≡ false
    pub reached : openapi_path is_word route.rule ≡ path
    pub by_method : ByMethod lower sorted service func route.methods method_lower label

  abbrev with_route : Route → RoleMap → RoleMap
  with_route route role_map =
      if starts_with "/api/" route.rule
      then add_view lower sorted service is_word view_functions route
          (get view_functions route.endpoint) role_map
      else role_map

  view_at :
      (route : Route) (func : ViewFunc) (role_map : RoleMap) (b : Bool)
      → func.is_public ≡ b
      → (if func.is_public
          then role_map
          else add_methods lower sorted service
              (openapi_path is_word route.rule)
              func
              route.methods
              role_map)
        ≡ (if b
            then role_map
            else add_methods lower sorted service
                (openapi_path is_word route.rule)
                func
                route.methods
                role_map)
  view_at route func role_map b e =
      ap
        (λ (public : Bool).
          if public
          then role_map
          else add_methods lower sorted service (openapi_path is_word route.rule) func route.methods
              role_map)
        e

  module _ (path method : String) where
    with_route-Has :
        (route : Route) (role_map : RoleMap)
        → Has role_map path method
        → Has (with_route route role_map) path method
    with_route-Has route role_map h = elim (Bool-cases (starts_with "/api/" route.rule)) [
      | inr outside ↦ rw outside h
      | inl inside ↦ rw inside (elim (Option-cases (get view_functions route.endpoint)) [
        | inl unknown ↦ rw unknown h
        | inr (func, viewed) ↦ rw viewed (elim (Bool-cases func.is_public) [
          | inl public ↦ rw (view_at route func role_map true public) h
          | inr not_public ↦ rw (view_at route func role_map false not_public) (
              add_methods-Has lower sorted service (openapi_path is_word route.rule) func
                route.methods path method role_map h)
        ])
      ])
    ]

    add_routes-Has :
        (routes : List Route) (role_map : RoleMap)
        → Has role_map path method
        → Has (add_routes lower sorted service is_word view_functions routes role_map) path method
    unfolding add_routes
    add_routes-Has [] role_map h = h
    add_routes-Has (route ∷ routes) role_map h =
        add_routes-Has routes (with_route route role_map) (with_route-Has route role_map h)

    with_route-origin :
        (route : Route) (rest : List Route) (found : String) (role_map : RoleMap)
        → role_at (with_route route role_map) path method ≡ some found
        → (role_at role_map path method ≡ some found) ⊎ ByRoute (route ∷ rest) path method found
    with_route-origin route rest found role_map =
        elim (Bool-cases (starts_with "/api/" route.rule)) [
          | inr outside ↦ rw outside (λ h. inl h)
          | inl inside ↦ rw inside (elim (Option-cases (get view_functions route.endpoint)) [
            | inl unknown ↦ rw unknown (λ h. inl h)
            | inr (func, viewed) ↦ rw viewed (elim (Bool-cases func.is_public) [
              | inl public ↦ rw (view_at route func role_map true public) (λ h. inl h)
              | inr not_public ↦ rw (view_at route func role_map false not_public) (λ h.
                  elim (add_methods-origin lower sorted service (openapi_path is_word route.rule)
                    func route.methods path method found role_map h) [
                      | inl old ↦ inl old
                      | inr (reached, by_method) ↦ inr (record {
                        index = 0;
                        route = route;
                        func = func;
                        listed = refl;
                        in_api = inside;
                        viewed = viewed;
                        not_public = not_public;
                        reached = reached;
                        by_method = by_method;
                      })
                    ])
            ])
          ])
        ]

    add_routes-origin :
        (routes : List Route) (found : String) (role_map : RoleMap)
        → role_at
            (add_routes lower sorted service is_word view_functions routes role_map)
            path
            method
          ≡ some found
        → (role_at role_map path method ≡ some found) ⊎ ByRoute routes path method found
    unfolding add_routes
    add_routes-origin [] found role_map h = inl h
    add_routes-origin (route ∷ routes) found role_map h =
        elim (add_routes-origin routes found (with_route route role_map) h) [
          | inl here ↦ with_route-origin route routes found role_map here
          | inr o ↦ inr (record {
            index = suc o.index;
            route = o.route;
            func = o.func;
            listed = o.listed;
            in_api = o.in_api;
            viewed = o.viewed;
            not_public = o.not_public;
            reached = o.reached;
            by_method = o.by_method;
          })
        ]

  add_routes-listed :
      (routes : List Route) (i : ℕ) (route : Route) (func : ViewFunc) (role_map : RoleMap)
      (method_lower label : String)
      → get_elem? routes i ≡ some route
      → starts_with "/api/" route.rule ≡ true
      → get view_functions route.endpoint ≡ some func
      → func.is_public ≡ false
      → ByMethod lower sorted service func route.methods method_lower label
      → Has
          (add_routes lower sorted service is_word view_functions routes role_map)
          (openapi_path is_word route.rule)
          method_lower
  unfolding add_routes
  add_routes-listed [] i route func role_map method_lower label h inside viewed not_public b =
      absurd (cc h)
  add_routes-listed (x ∷ routes) (suc i) route func role_map method_lower label h inside viewed
        not_public b =
      add_routes-listed routes i route func (with_route x role_map) method_lower label h inside
        viewed not_public b
  add_routes-listed (x ∷ routes) zero route func role_map method_lower label h inside viewed
        not_public b =
      add_routes-Has (openapi_path is_word route.rule) method_lower routes (with_route x role_map) (
        rw (some-injective _ _ h) (
          rw inside (
            rw viewed (
              rw (view_at route func role_map false not_public) (
                rw (← b.spelled) (
                  add_methods-listed lower sorted service (openapi_path is_word route.rule) func
                    route.methods b.index b.method label role_map b.listed b.counted
                    b.required))))))

  -- The table of the OpenAPI document has a role for a path and a method exactly if a route under /api/
  -- with that path, whose view is not marked public, lists the method, which is neither HEAD nor
  -- OPTIONS, and a role is resolved for it; the role is that of such a route. Whether the hook checks
  -- the route plays no part.
  pub annotate_openapi_security_exact :
      (routes : List Route) (path method_lower : String)
      → let role_map =
          annotate_openapi_security lower sorted service is_word view_functions routes in
        ((label : String)
          → role_at role_map path method_lower ≡ some label
          → ByRoute routes path method_lower label)
        × ((label : String)
            → ByRoute routes path method_lower label
            → Has role_map path method_lower)
  unfolding annotate_openapi_security get
  annotate_openapi_security_exact routes path method_lower = (
    λ label h. elim (add_routes-origin path method_lower routes label [] h) [
      | inl none_there ↦ absurd (cc none_there)
      | inr o ↦ o
    ],
    λ label o. rw (← o.reached) (
        add_routes-listed routes o.index o.route o.func [] method_lower label o.listed o.in_api
          o.viewed o.not_public o.by_method),
  )
