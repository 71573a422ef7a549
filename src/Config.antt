-- ===== src/Config.antt =====
-- app/schemas/config.py and app/services/config_service.py: the validated tab configuration and
-- the service that hands it out. A tab index is a number, as the route `/restart/<int:idx>` has it.
mod Tests
pub mod Laws
pub mod Loading
use Prim.Native.String
use Prim.Native.Char.{Char, code}
use zigbee_control.Prelude.{
  ℕ, String, Bool, true, false, not, ◌&&◌, ◌||◌, Option, none, some, List, [], ◌∷◌, map,
  if◌then◌else◌, leb, ◌==◌, nat_eq, string_eq, truthy, get_elem?, length,
}
use zigbee_control.Prelude.Results.{Result, ok, err, ◌>>=◌, ◌>>◌}

-- The characters that `str.strip` takes off.
unfoldable pub is_space : Char → Bool
is_space c =
    let n = code c in
    (leb 9 n && leb n 13)
    || (leb 28 n && leb n 32)
    || n == 133
    || n == 160
    || n == 5760
    || (leb 8192 n && leb n 8202)
    || n == 8232
    || n == 8233
    || n == 8239
    || n == 8287
    || n == 12288

unfoldable pub lstrip : String → String
lstrip String.[] = String.[]
lstrip (String.◌∷◌ c s) = let rest = lstrip s in if is_space c then rest else String.◌∷◌ c s

unfoldable pub rstrip : String → String
rstrip String.[] = String.[]
rstrip (String.◌∷◌ c s) =
    let rest = rstrip s in if is_space c && rest == "" then String.[] else String.◌∷◌ c rest

unfoldable pub strip : String → String
unfolding lstrip rstrip
strip s = rstrip (lstrip s)

pub data Invalid : Type 0 where
  too_short must_not_be_empty no_tabs : Invalid

-- `Field(min_length=1)` and `_strip_and_require`.
unfoldable pub strip_and_require : String → Result Invalid String
strip_and_require value =
    if not (truthy value)
    then err too_short
    else let trimmed = strip value in
      if not (truthy trimmed) then err must_not_be_empty else ok trimmed

-- `_strip_optional`
unfoldable pub strip_optional : Option String → Result Invalid (Option String)
strip_optional none = ok none
strip_optional (some value) = do trimmed ← strip_and_require value; ok (some trimmed)

pub record KubernetesConfig : Type 0 where
  pub namespace : String
  pub deployment : String

pub record TabConfig : Type 0 where
  pub text : String
  pub icon_url : String
  pub iframe_url : String
  pub tab_color : Option String
  pub k8s : Option KubernetesConfig

unfoldable pub validate_k8s : KubernetesConfig → Result Invalid KubernetesConfig
validate_k8s raw = do
  namespace ← strip_and_require raw.namespace
  deployment ← strip_and_require raw.deployment
  ok (record { namespace = namespace; deployment = deployment })

unfoldable pub validate_optional_k8s :
    Option KubernetesConfig → Result Invalid (Option KubernetesConfig)
validate_optional_k8s none = ok none
validate_optional_k8s (some raw) = do k8s ← validate_k8s raw; ok (some k8s)

-- The fields of a `TabConfig`, in the order of the class; the first that is invalid is reported.
unfoldable pub validate_tab : TabConfig → Result Invalid TabConfig
validate_tab raw = do
  text ← strip_and_require raw.text
  icon_url ← strip_and_require raw.icon_url
  iframe_url ← strip_and_require raw.iframe_url
  tab_color ← strip_optional raw.tab_color
  k8s ← validate_optional_k8s raw.k8s
  ok (record {
    text = text;
    icon_url = icon_url;
    iframe_url = iframe_url;
    tab_color = tab_color;
    k8s = k8s;
  })

unfoldable pub validate_all : List TabConfig → Result Invalid (List TabConfig)
validate_all [] = ok []
validate_all (raw ∷ rest) = do tab ← validate_tab raw; tabs ← validate_all rest; ok (tab ∷ tabs)

abbrev pub require_tabs : List TabConfig → Result Invalid (List TabConfig)
require_tabs [] = err no_tabs
require_tabs (tab ∷ tabs) = ok (tab ∷ tabs)

-- `TabsConfig`
unfoldable pub validate_tabs : List TabConfig → Result Invalid (List TabConfig)
validate_tabs raw = do tabs ← validate_all raw; require_tabs tabs

-- ConfigService: its tabs, and the errors TabNotFound and TabNotRestartable.
pub record ConfigService : Type 0 where
  pub tabs : List TabConfig

pub data TabError : Type 0 where
  tab_not_found tab_not_restartable : ℕ → TabError

-- `__init__`; `none` is its ValueError.
unfoldable pub create : List TabConfig → Option ConfigService
create [] = none
create (tab ∷ tabs) = some (record { tabs = tab ∷ tabs })

unfoldable pub tab_count : ConfigService → ℕ
tab_count service = length service.tabs

unfoldable pub get_tab : ℕ → ConfigService → Result TabError TabConfig
get_tab idx service = elim (get_elem? service.tabs idx) [
  | none ↦ err (tab_not_found idx)
  | some tab ↦ ok tab
]

abbrev pub require_k8s : ℕ → TabConfig → Option KubernetesConfig → Result TabError TabConfig
require_k8s idx tab none = err (tab_not_restartable idx)
require_k8s idx tab (some k8s) = ok tab

unfoldable pub assert_restartable : ℕ → ConfigService → Result TabError TabConfig
unfolding get_tab
assert_restartable idx service = do tab ← get_tab idx service; require_k8s idx tab tab.k8s

pub record TabResponse : Type 0 where
  pub text : String
  pub icon_url : String
  pub iframe_url : String
  pub restartable : Bool
  pub tab_color : Option String

abbrev pub is_present : Option KubernetesConfig → Bool
is_present none = false
is_present (some k8s) = true

unfoldable pub tab_response : TabConfig → TabResponse
tab_response tab = record {
  text = tab.text;
  icon_url = tab.icon_url;
  iframe_url = tab.iframe_url;
  restartable = is_present tab.k8s;
  tab_color = tab.tab_color;
}

unfoldable pub to_response : ConfigService → List TabResponse
unfolding tab_response
to_response service = map tab_response service.tabs
