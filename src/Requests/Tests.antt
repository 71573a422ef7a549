-- ===== src/Requests/Tests.antt =====
-- List parameters of a concrete enumeration, which is that of the texts `a` and `b`.
use zigbee_control.Prelude.{
  ◌≡◌, refl, String, true, false, Option, none, some, List, [], ◌∷◌, ◌==◌, if◌then◌else◌, count,
  string_eq,
}
use zigbee_control.Prelude.Results.{ok}
use zigbee_control.Requests.{parse_bool_query_param, parse_enum_list_query_param}

abbrev member : String → Option String
member token = if token == "a" then some "a" else if token == "b" then some "b" else none

abbrev values : List String
values = "a" ∷ "b" ∷ []

abbrev raw : List String
raw = "b, a" ∷ "" ∷ "b" ∷ []

parsed_raw : parse_enum_list_query_param member values (some raw) ≡ ok ("b" ∷ "a" ∷ [])
unfolding parse_enum_list_query_param zigbee_control.Prelude.Texts.split_char
    zigbee_control.Config.strip zigbee_control.Config.is_space zigbee_control.Prelude.contains
parsed_raw = refl

parsed_yes : parse_bool_query_param (some "Yes") false ≡ true
unfolding parse_bool_query_param zigbee_control.Auth.Roles.same_letters
parsed_yes = refl
