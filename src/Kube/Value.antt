-- ===== src/Kube/Value.antt =====
-- The Python values that the Kubernetes client hands over, and the three helpers that read them:
-- `_get_field`, `_get_int_field` and `_extract_generation` of app/services/kubernetes_service.py.
-- Tuples, floats and other objects do not occur in what the client returns. None of the names
-- that the program asks for is an attribute of dict, str, list or int.
use Prim.Native.Char.{code}
use zigbee_control.Prelude.{
  ℕ, zero, ◌+◌, String, Bool, true, false, ◌&&◌, Option, none, some, List, [], ◌∷◌, if◌then◌else◌,
  ◌==◌, leb, string_eq, nat_eq, truthy,
}
use zigbee_control.Prelude.Int.{ℤ, pos}

mutual
  -- `inst` is an object with attributes.
  pub data Value : Type 0 where
    null : Value
    bool : Bool → Value
    int : ℤ → Value
    str : String → Value
    seq : Values → Value
    inst : Attributes → Value
    dict : Attributes → Value

  pub data Values : Type 0 where
    nil : Values
    cons : Value → Values → Values

  pub data Attributes : Type 0 where
    end : Attributes
    attribute : String → Value → Attributes → Attributes

abbrev pub to_list : Values → List Value
to_list nil = []
to_list (cons v vs) = v ∷ to_list vs

abbrev pub lookup : Attributes → String → Option Value
lookup end name = none
lookup (attribute key v rest) name = if key == name then some v else lookup rest name

abbrev pub keys : Attributes → List Value
keys end = []
keys (attribute key v rest) = str key ∷ keys rest

-- `is None`
abbrev pub is_null : Value → Bool
is_null null = true
is_null _ = false

abbrev pub not_null : Value → Option Value
not_null null = none
not_null v = some v

abbrev pub or_null : Option Value → Value
or_null none = null
or_null (some v) = v

abbrev pub and_then : Option Value → (Value → Option Value) → Option Value
and_then none f = none
and_then (some v) f = f v

-- One round of the loop of `_get_field`: what it returns, if it returns.
abbrev pub field_at : Value → String → Option Value
field_at (inst attributes) name = and_then (lookup attributes name) not_null
field_at (dict items) name = lookup items name
field_at _ name = none

unfoldable pub get_field : Value → List String → Value
get_field obj [] = null
get_field obj (name ∷ names) =
    let rest = get_field obj names in elim (field_at obj name) [ none ↦ rest | some v ↦ v ]

-- Python's truth value.
abbrev pub truthy_value : Value → Bool
truthy_value null = false
truthy_value (bool b) = b
truthy_value (int (pos zero)) = false
truthy_value (int z) = true
truthy_value (str s) = truthy s
truthy_value (seq nil) = false
truthy_value (seq (cons v vs)) = true
truthy_value (inst a) = true
truthy_value (dict end) = false
truthy_value (dict (attribute k v rest)) = true

abbrev pub characters : String → List Value
characters String.[] = []
characters (String.◌∷◌ c s) = str (String.◌∷◌ c String.[]) ∷ characters s

-- The items that `for … in (v or [])` goes through; `none` is a TypeError.
abbrev pub iterate_or_empty : Value → Option (List Value)
iterate_or_empty v = if truthy_value v then iterate v else some []
  where
    iterate : Value → Option (List Value)
    iterate (seq vs) = some (to_list vs)
    iterate (dict items) = some (keys items)
    iterate (str s) = some (characters s)
    iterate _ = none

abbrev pub is_text : Value → String → Bool
is_text (str s) t = s == t
is_text _ t = false

abbrev pub lower_code : ℕ → ℕ
lower_code c = if leb b'A' c && leb c b'Z' then c + 32 else c

abbrev pub equals_lower : String → String → Bool
equals_lower String.[] String.[] = true
equals_lower (String.◌∷◌ c s) (String.◌∷◌ d t) = lower_code (code c) == code d && equals_lower s t
equals_lower _ _ = false

-- `str(v).lower() == "true"`
abbrev pub says_true : Value → Bool
says_true (bool b) = b
says_true (str s) = equals_lower s "true"
says_true _ = false

-- `str(v or "").lower() == "false"`
abbrev pub says_false : Value → Bool
says_false (str s) = equals_lower s "false"
says_false _ = false

-- `hash(v)` is defined. The client's objects and Python's list and dict have none.
abbrev pub is_hashable : Value → Bool
is_hashable (seq vs) = false
is_hashable (inst a) = false
is_hashable (dict d) = false
is_hashable _ = true

-- `parse_int` is Python's `int` on a text; `none` is its ValueError.
module _ (parse_int : String → Option ℤ) where
  -- `int(v)`, with `none` for a TypeError or a ValueError.
  abbrev pub to_int : Value → Option ℤ
  to_int (int z) = some z
  to_int (bool true) = some (pos 1)
  to_int (bool false) = some (pos 0)
  to_int (str s) = parse_int s
  to_int _ = none

  unfoldable pub get_int_field : Value → List String → Option ℤ
  unfolding get_field
  get_int_field obj names = to_int (get_field obj names)

  unfoldable pub extract_generation : Value → Option ℤ
  unfolding get_int_field get_field
  extract_generation obj = get_int_field (get_field obj ("metadata" ∷ [])) ("generation" ∷ [])
