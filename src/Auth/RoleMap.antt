-- ===== src/Auth/RoleMap.antt =====
-- `annotate_openapi_security` of app/utils/spectree_config.py: the table of the roles that the
-- endpoints require, which is written into the OpenAPI document. `sorted` and `lower` are Python's,
-- `is_word` is the class `\w` of a regular expression.
pub mod Methods
pub mod Origin
mod Tests
use Prim.Native.String
use Prim.Native.String.{◌++◌ as append}
use Prim.Native.Char.{Char, code}
use zigbee_control.Prelude.{
  ℕ, zero, suc, ◌+◌, String, Bool, true, false, not, ◌&&◌, ◌||◌, Option, none, some, List, [], ◌∷◌,
  if◌then◌else◌, ◌==◌, nat_eq, string_eq, truthy,
}
use zigbee_control.Prelude.Texts.{starts_with, join_with}
use zigbee_control.Dict.{Dict, get, put}
use zigbee_control.Auth.Roles.{
  AuthService, ViewFunc, Required, open_to_all, one_role, any_of, resolve_required_role,
}

-- A rule of the URL map.
pub record Route : Type 0 where
  pub rule : String
  pub endpoint : String
  pub methods : List String

-- The openapi paths with the role of each method.
abbrev pub RoleMap : Type 0
RoleMap = Dict String (Dict String String)

-- The text after the first `n` characters.
unfoldable pub after : ℕ → String → String
after zero s = s
after (suc n) String.[] = ""
after (suc n) (String.◌∷◌ c s) = after n s

abbrev pub first_is : ℕ → String → Bool
first_is n String.[] = false
first_is n (String.◌∷◌ c s) = code c == n

abbrev pub with_converter : ℕ → Option (String × ℕ) → Option (String × ℕ)
with_converter n none = none
with_converter n (some (name, k)) = some (name, suc n + k)

-- `_FLASK_PARAM_RE.sub`, with the number of characters that a match still covers.
abbrev pub replaced : Char → Option (String × ℕ) → String
replaced c none = String.◌∷◌ c ""
replaced c (some (name, n)) = append "{" (append name "}")

abbrev pub covered : Option (String × ℕ) → ℕ
covered none = 0
covered (some (name, n)) = n

module _ (is_word : Char → Bool) where
  -- The longest text of word characters at the front, and its length.
  unfoldable pub word_at : String → String × ℕ
  word_at String.[] = ("", 0)
  word_at (String.◌∷◌ c s) =
      let (word, n) = word_at s in if is_word c then (String.◌∷◌ c word, suc n) else ("", 0)

  -- `\w+>`: the name and the length with the bracket.
  unfoldable pub name_at : String → Option (String × ℕ)
  unfolding word_at after
  name_at s =
      let (name, n) = word_at s in
      if truthy name && first_is 62 (after n s) then some (name, suc n) else none

  -- `(?:\w+:)?(\w+)>`: a match of the pattern after its first character.
  unfoldable pub param_at : String → Option (String × ℕ)
  unfolding name_at
  param_at s =
      let (converter, n) = word_at s in
      if truthy converter && first_is 58 (after n s)
      then with_converter n (name_at (after (suc n) s))
      else name_at s

  abbrev pub match_at : Char → String → Option (String × ℕ)
  match_at c s = if code c == 60 then param_at s else none

  unfoldable pub sub_params : String → ℕ → String
  unfolding param_at
  sub_params String.[] skip = ""
  sub_params (String.◌∷◌ c s) (suc skip) = sub_params s skip
  sub_params (String.◌∷◌ c s) zero =
      append (replaced c (match_at c s)) (sub_params s (covered (match_at c s)))

  unfoldable pub openapi_path : String → String
  unfolding sub_params
  openapi_path rule = sub_params rule 0

abbrev pub methods_of : Option (Dict String String) → Dict String String
methods_of none = []
methods_of (some methods) = methods

-- `role_map.setdefault(path, {})[method] = label`
unfoldable pub put_role : RoleMap → (path method label : String) → RoleMap
put_role role_map path method label =
    put role_map path (put (methods_of (get role_map path)) method label)

abbrev pub is_ignored : (method_lower : String) → Bool
is_ignored method_lower = method_lower == "options" || method_lower == "head"

abbrev pub put_label : RoleMap → (path method : String) → Option String → RoleMap
put_label role_map path method none = role_map
put_label role_map path method (some label) = put_role role_map path method label

module _ (lower : String → String) (sorted : List String → List String) where
  abbrev pub role_label : Required → Option String
  role_label open_to_all = none
  role_label (one_role role) = some role
  role_label (any_of roles) = some (join_with ", " (sorted roles))

  module _ (service : AuthService) where
    unfoldable pub add_methods :
        (path : String) → ViewFunc → (methods : List String) → RoleMap → RoleMap
    unfolding put_role
    add_methods path func [] role_map = role_map
    add_methods path func (method ∷ methods) role_map = add_methods path func methods (
        if is_ignored (lower method)
        then role_map
        else put_label role_map path (lower method)
            (role_label (resolve_required_role service method (some func))))

    module _ (is_word : Char → Bool) (view_functions : Dict String ViewFunc) where
      abbrev pub add_view : Route → Option ViewFunc → RoleMap → RoleMap
      add_view route none role_map = role_map
      add_view route (some func) role_map =
          if func.is_public
          then role_map
          else add_methods (openapi_path is_word route.rule) func route.methods role_map

      unfoldable pub add_routes : List Route → RoleMap → RoleMap
      unfolding add_methods
      add_routes [] role_map = role_map
      add_routes (route ∷ routes) role_map = add_routes routes (
          if starts_with "/api/" route.rule
          then add_view route (get view_functions route.endpoint) role_map
          else role_map)

      unfoldable pub annotate_openapi_security : List Route → RoleMap
      unfolding add_routes
      annotate_openapi_security routes = add_routes routes []
