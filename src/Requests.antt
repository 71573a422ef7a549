-- ===== src/Requests.antt =====
-- app/utils/request_parsing.py: query parameters that are booleans or lists of an enumeration's
-- values. The enumeration is a parameter: `member` is `enum_cls(token)`, `none` where it raises.
pub mod Unique
mod Tests
use Prim.Native.String.{◌++◌ as append}
use zigbee_control.Prelude.{
  String, Bool, true, false, not, ◌||◌, Option, none, some, List, [], ◌∷◌, ◌++◌, if◌then◌else◌, Eq,
  ◌==◌, map, select, contains, truthy,
}
use zigbee_control.Prelude.Results.{Result, ok, err}
use zigbee_control.Prelude.Texts.{split_char, join_with}
use zigbee_control.Config.{strip}
use zigbee_control.Auth.Roles.{same_letters}

-- `raw_value.lower() in _TRUE_VALUES`
abbrev pub is_true_value : String → Bool
is_true_value s =
    same_letters s "TRUE" || same_letters s "1" || same_letters s "YES" || same_letters s "ON"

unfoldable pub parse_bool_query_param : (raw_value : Option String) → (default : Bool) → Bool
parse_bool_query_param none default = default
parse_bool_query_param (some raw_value) default = is_true_value raw_value

-- The stripped segments of one value, without the empty ones.
abbrev pub segments : (raw_value : String) → List String
segments raw_value = select truthy (map strip (split_char 44 raw_value))

unfoldable pub tokens_of : List String → List String
tokens_of [] = []
tokens_of (raw_value ∷ rest) =
    let later = tokens_of rest in if truthy raw_value then segments raw_value ++ later else later

module _ {E : Type 0} ⦃e : Eq E⦄ (member : String → Option E) (valid_values : List String) where
  -- `parsed`, which has the same members as `seen`, and `invalid_values`.
  abbrev pub Parsed : Type 0
  Parsed = List E × List String

  abbrev pub parse_token : (token : String) → Option E → Parsed → Parsed
  parse_token token none (parsed, invalid_values) = (parsed, invalid_values ++ token ∷ [])
  parse_token token (some enum_member) (parsed, invalid_values) =
      if contains parsed enum_member
      then (parsed, invalid_values)
      else (parsed ++ enum_member ∷ [], invalid_values)

  unfoldable pub parse_tokens : List String → Parsed → Parsed
  parse_tokens [] state = state
  parse_tokens (token ∷ tokens) state = parse_tokens tokens (parse_token token (member token) state)

  abbrev pub parsed_or_error : Parsed → Result String (List E)
  parsed_or_error (parsed, []) = ok parsed
  parsed_or_error (parsed, value ∷ values) = err (
      append "invalid value(s): " (
        append (join_with ", " (value ∷ values))
          (append "; valid values are: " (join_with ", " valid_values))))

  unfoldable pub parse_enum_list_query_param :
      (raw_values : Option (List String)) → Result String (List E)
  unfolding tokens_of parse_tokens
  parse_enum_list_query_param none = ok []
  parse_enum_list_query_param (some raw_values) =
      parsed_or_error (parse_tokens (tokens_of raw_values) ([], []))
