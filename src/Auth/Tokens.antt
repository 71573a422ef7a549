-- ===== src/Auth/Tokens.antt =====
-- Where the token of a request stands, and what `validate_token` reads from it. The signature, the
-- times and the issuer are checked by PyJWT (`get_signing_key_from_jwt` and `jwt.decode`), whose
-- outcome is the parameter `decode`. `show` is Python's `str` of a value that is no text.
use Prim.Native.String.{◌++◌ as append}
use zigbee_control.Prelude.{
  String, Bool, true, false, ◌&&◌, ◌||◌, Option, none, some, List, [], ◌∷◌, ◌++◌, if◌then◌else◌,
  ◌==◌, nat_eq, string_eq, truthy, truthy_opt,
}
use zigbee_control.Prelude.Results.{Result, ok, err}
use zigbee_control.Json.{Json, text, array, object, Items, nil, cons, Fields, end, field}
use zigbee_control.Auth.Roles.{AuthService, expand_roles, same_letters, letter}

abbrev pub AuthenticationException : Type 0
AuthenticationException = String

-- `payload.get(name)`
unfoldable pub find_field : String → Fields → Option Json
find_field name end = none
find_field name (field key value rest) =
    let later = find_field name rest in if key == name then some value else later

module _ (show : Json → String) where
  abbrev pub role_name : Json → String
  role_name (text s) = s
  role_name other = show other

  -- `str(role) for role in realm_roles`
  abbrev pub role_names : Items → List String
  role_names nil = []
  role_names (cons role rest) = role_name role ∷ role_names rest

  -- A list of roles, where it is one.
  abbrev pub roles_in : Option Json → List String
  roles_in (some (array items)) = role_names items
  roles_in _ = []

  -- `access.get("roles", [])`, where `access` is a dict.
  abbrev pub access_roles : Option Json → List String
  access_roles (some (object claims)) = roles_in (find_field "roles" claims)
  access_roles _ = []

  abbrev pub client_access : String → Option Json → Option Json
  client_access audience (some (object claims)) = find_field audience claims
  client_access audience _ = none

  -- `_extract_roles`
  unfoldable pub extract_roles : Fields → (audience : Option String) → List String
  extract_roles payload none = access_roles (find_field "realm_access" payload)
  extract_roles payload (some audience) =
      access_roles (find_field "realm_access" payload)
      ++ (if truthy audience
          then access_roles (client_access audience (find_field "resource_access" payload))
          else [])

-- The claims of a token that PyJWT accepts: `sub`, `email` and `name`, and the whole payload.
pub record Claims : Type 0 where
  pub sub : Option String
  pub email : Option String
  pub name : Option String
  pub payload : Fields

pub data Decoded : Type 0 where
  expired_signature invalid_signature invalid_issuer invalid_audience : Decoded
  py_jwt_error unexpected_error : String → Decoded
  decoded : Claims → Decoded

pub record AuthContext : Type 0 where
  pub subject : String
  pub email : Option String
  pub name : Option String
  pub roles : List String

abbrev pub with_subject :
    (show : Json → String)
    → (audience : Option String) → AuthService
    → Claims
    → Option String
    → Result AuthenticationException AuthContext
with_subject show audience service claims none = err "Token missing 'sub' claim"
with_subject show audience service claims (some sub) =
    if truthy sub
    then ok (record {
      subject = sub;
      email = claims.email;
      name = claims.name;
      roles = expand_roles service (extract_roles show claims.payload audience);
    })
    else err "Token missing 'sub' claim"

-- What `validate_token` makes of PyJWT's outcome.
unfoldable pub validated :
    (show : Json → String)
    → (audience : Option String) → AuthService
    → Decoded
    → Result AuthenticationException AuthContext
validated show audience service expired_signature = err "Token has expired"
validated show audience service invalid_signature = err "Invalid token signature"
validated show audience service invalid_issuer =
    err "Token issuer or audience does not match expected values"
validated show audience service invalid_audience =
    err "Token issuer or audience does not match expected values"
validated show audience service (py_jwt_error message) = err (append "Invalid token: " message)
validated show audience service (unexpected_error message) =
    err (append "Token validation failed: " message)
validated show audience service (decoded claims) =
    with_subject show audience service claims claims.sub

-- `has_client` is false while OIDC is disabled.
unfoldable pub validate_token :
    (show : Json → String)
    → (decode : String → Decoded) → (has_client : Bool) → (audience : Option String) → AuthService
    → String
    → Result AuthenticationException AuthContext
validate_token show decode has_client audience service token =
    if has_client then validated show audience service (decode token) else err "OIDC not enabled"

-- The headers and cookies of a request that matter here; `authorization` is the header's parts as
-- `.split()` gives them.
pub record Request : Type 0 where
  pub method : String
  pub access_cookie : Option String
  pub refresh_cookie : Option String
  pub authorization : List String

abbrev pub bearer : List String → Option String
bearer (scheme ∷ token ∷ []) = if same_letters scheme "BEARER" then some token else none
bearer _ = none

unfoldable pub extract_token_from_request : Request → Option String
extract_token_from_request request =
    if truthy_opt request.access_cookie then request.access_cookie else bearer request.authorization

-- Whether the text, in lower case, begins with a word or contains it.
abbrev pub begins_with : (word : String) → String → Bool
begins_with String.[] s = true
begins_with (String.◌∷◌ c word) String.[] = false
begins_with (String.◌∷◌ c word) (String.◌∷◌ d s) = letter c == letter d && begins_with word s

abbrev pub mentions : (word : String) → String → Bool
mentions word String.[] = begins_with word String.[]
mentions word (String.◌∷◌ d s) = begins_with word (String.◌∷◌ d s) || mentions word s
