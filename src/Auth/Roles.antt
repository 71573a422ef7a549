-- ===== src/Auth/Roles.antt =====
-- The role tiers of app/services/auth_service.py. A Python set is a list of which only the
-- membership counts.
pub mod Hierarchy
use Prim.Native.String
use Prim.Native.Char.{Char, code}
use zigbee_control.Prelude.{
  ℕ, ◌-◌, String, Bool, true, false, not, ◌&&◌, ◌||◌, Option, none, some, List, [], ◌∷◌, ◌++◌,
  if◌then◌else◌, leb, ◌==◌, nat_eq, string_eq, contains, any,
}
use zigbee_control.Prelude.Results.{Result, ok, err}
use zigbee_control.Dict.{Dict, get, put}

-- A character's number with the letters a to z as capitals, by which `.upper()` and `.lower()` are
-- compared here.
abbrev pub letter : Char → ℕ
letter c = let n = code c in if leb 97 n && leb n 122 then n - 32 else n

-- `s.upper() == t` for a `t` of capitals.
unfoldable pub same_letters : String → String → Bool
same_letters String.[] String.[] = true
same_letters String.[] (String.◌∷◌ d t) = false
same_letters (String.◌∷◌ c s) String.[] = false
same_letters (String.◌∷◌ c s) (String.◌∷◌ d t) = letter c == letter d && same_letters s t

abbrev pub listed_role : Option String → List String
listed_role none = []
listed_role (some role) = role ∷ []

-- `self._hierarchy_map[role] = implied` for a tier that is configured.
abbrev pub put_tier :
    Option String → List String → Dict String (List String) → Dict String (List String)
put_tier none implied d = d
put_tier (some role) implied d = put d role implied

pub record AuthService : Type 0 where
  pub read_role : Option String
  pub write_role : Option String
  pub admin_role : Option String
  pub hierarchy_roles : List String
  pub configured_roles : List String
  pub hierarchy_map : Dict String (List String)

pub data RoleError : Type 0 where
  nobody_could_write : RoleError

abbrev pub is_reader_only : (read_role write_role admin_role : Option String) → Bool
is_reader_only (some read) none none = true
is_reader_only _ _ _ = false

-- What the part of `__init__` about roles assigns.
unfoldable pub tiers :
    (read_role write_role admin_role : Option String)
    → (additional_roles : List String) → AuthService
tiers read_role write_role admin_role additional_roles =
    let reader = listed_role read_role in
    let writer = listed_role write_role ++ reader in
    let hierarchy = reader ++ listed_role write_role ++ listed_role admin_role in
    record {
      read_role = read_role;
      write_role = write_role;
      admin_role = admin_role;
      hierarchy_roles = hierarchy;
      configured_roles = hierarchy ++ additional_roles;
      hierarchy_map =
          put_tier admin_role (listed_role admin_role ++ writer)
            (put_tier write_role writer (put_tier read_role reader []));
    }

unfoldable pub init_roles :
    (read_role write_role admin_role : Option String)
    → (additional_roles : List String) → Result RoleError AuthService
init_roles read_role write_role admin_role additional_roles =
    if is_reader_only read_role write_role admin_role
    then err nobody_could_write
    else ok (tiers read_role write_role admin_role additional_roles)

abbrev pub implied_or : String → Option (List String) → List String
implied_or role none = role ∷ []
implied_or role (some []) = role ∷ []
implied_or role (some (x ∷ xs)) = x ∷ xs

unfoldable pub expand_roles : AuthService → (raw_roles : List String) → List String
expand_roles service [] = []
expand_roles service (role ∷ rest) =
    implied_or role (get service.hierarchy_map role) ++ expand_roles service rest

-- What the decorators set on a view function.
pub record ViewFunc : Type 0 where
  pub is_public : Bool
  pub is_safe_query : Bool
  pub allowed_roles : List String

abbrev pub undecorated : ViewFunc
undecorated = record { is_public = false; is_safe_query = false; allowed_roles = [] }

abbrev pub public : ViewFunc → ViewFunc
public func = record func { is_public = true }

abbrev pub safe_query : ViewFunc → ViewFunc
safe_query func = record func { is_safe_query = true }

abbrev pub allow_roles : List String → ViewFunc → ViewFunc
allow_roles roles func = record func { allowed_roles = roles }

-- `None`, one role, or a set of roles.
pub data Required : Type 0 where
  open_to_all : Required
  one_role : String → Required
  any_of : List String → Required

abbrev pub gate : Option String → Required
gate none = open_to_all
gate (some role) = one_role role

abbrev pub write_gate : (write_role admin_role : Option String) → Required
write_gate (some role) admin_role = one_role role
write_gate none admin_role = gate admin_role

unfoldable pub by_method : AuthService → (http_method : String) → Required
by_method service http_method =
    if same_letters http_method "GET" || same_letters http_method "HEAD"
    then gate service.read_role
    else write_gate service.write_role service.admin_role

unfoldable pub resolve_required_role :
    AuthService → (http_method : String) → Option ViewFunc → Required
resolve_required_role service http_method none = by_method service http_method
resolve_required_role service http_method (some func) = elim func.allowed_roles [
  | [] ↦ if func.is_safe_query then gate service.read_role else by_method service http_method
  | role ∷ roles ↦ any_of (role ∷ roles)
]

-- `allowed - configured` is not empty.
abbrev pub has_unknown : (configured : List String) → List String → Bool
has_unknown configured roles = any (λ role. not (contains configured role)) roles

-- `validate_allow_roles_at_startup`: the first endpoint with an unknown role.
unfoldable pub validate_allow_roles_at_startup : Dict String ViewFunc → AuthService → Option String
validate_allow_roles_at_startup [] service = none
validate_allow_roles_at_startup ((endpoint, func) ∷ rest) service =
    let later = validate_allow_roles_at_startup rest service in
    if has_unknown service.configured_roles func.allowed_roles then some endpoint else later
