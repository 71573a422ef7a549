-- ===== src/Json.antt =====
-- JSON values, as the program hands them to `json.dumps` and receives them from `json.loads`.
use zigbee_control.Prelude.{zero, String, Bool, true, false, Option, none, some, truthy}
use zigbee_control.Prelude.Int.{ℤ, pos}

mutual
  pub data Json : Type 0 where
    null : Json
    bool : Bool → Json
    int : ℤ → Json
    text : String → Json
    array : Items → Json
    object : Fields → Json

  pub data Items : Type 0 where
    nil : Items
    cons : Json → Items → Items

  pub data Fields : Type 0 where
    end : Fields
    field : String → Json → Fields → Fields

-- `None` or a text.
abbrev pub opt_text : Option String → Json
opt_text none = null
opt_text (some s) = text s

-- Python's truth value of a JSON value.
unfoldable pub truthy_json : Json → Bool
truthy_json null = false
truthy_json (bool b) = b
truthy_json (int (pos zero)) = false
truthy_json (int _) = true
truthy_json (text s) = truthy s
truthy_json (array nil) = false
truthy_json (array (cons item items)) = true
truthy_json (object end) = false
truthy_json (object (field key value fields)) = true
