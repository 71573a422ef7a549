-- ===== src/Auth/RoleMap/Tests.antt =====
-- The roles of the OpenAPI document for one concrete route.
use Prim.Native.Char.{Char, code}
use zigbee_control.Prelude.{
  ◌≡◌, refl, String, Bool, ◌&&◌, ◌||◌, none, some, List, [], ◌∷◌, if◌then◌else◌, leb, ◌==◌, nat_eq,
  string_eq,
}
use zigbee_control.Dict.{Dict}
use zigbee_control.Auth.Roles.{AuthService, ViewFunc, undecorated}
use zigbee_control.Auth.RoleMap.{Route, openapi_path, annotate_openapi_security}
use zigbee_control.Auth.RoleMap.Methods.{role_at, Has}
use zigbee_control.Auth.RoleMap.Origin.{ByRoute, annotate_openapi_security_exact}

abbrev is_word : Char → Bool
is_word c =
    let n = code c in
    (leb 48 n && leb n 57) || (leb 65 n && leb n 90) || n == 95 || (leb 97 n && leb n 122)

typed_param : openapi_path is_word "/api/restart/<int:idx>/x" ≡ "/api/restart/{idx}/x"
unfolding openapi_path
typed_param = refl

two_params : openapi_path is_word "/api/<a>/<b:c>/<a:b:c>" ≡ "/api/{a}/{c}/<a:b:c>"
unfolding openapi_path
two_params = refl

abbrev lower : String → String
lower s = if s == "POST" then "post" else s

abbrev sorted : List String → List String
sorted roles = roles

abbrev editors : AuthService
editors = record {
  read_role = none;
  write_role = some "editor";
  admin_role = none;
  hierarchy_roles = "editor" ∷ [];
  configured_roles = "editor" ∷ [];
  hierarchy_map = [];
}

abbrev restart : Route
restart = record {
  rule = "/api/restart/<int:idx>";
  endpoint = "api.restart.restart_tab";
  methods = "POST" ∷ "OPTIONS" ∷ [];
}

abbrev views : Dict String ViewFunc
views = ("api.restart.restart_tab", undecorated) ∷ []

annotate_openapi_security_exact_example :
    let role_map = annotate_openapi_security lower sorted editors is_word views (restart ∷ []) in
    ((label : String)
      → role_at role_map "/api/restart/{idx}" "post" ≡ some label
      → ByRoute lower sorted editors is_word views (restart ∷ []) "/api/restart/{idx}" "post" label)
    × ((label : String)
        → ByRoute lower sorted editors is_word views
            (restart ∷ [])
            "/api/restart/{idx}"
            "post"
            label
        → Has role_map "/api/restart/{idx}" "post")
annotate_openapi_security_exact_example =
    annotate_openapi_security_exact lower sorted editors is_word views (restart ∷ [])
      "/api/restart/{idx}" "post"
