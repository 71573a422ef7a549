-- ===== src/Config/Laws.antt =====
-- Validation trims, and is stable; what clients are told of a tab agrees with what the service does.
use zigbee_control.Prelude.{
  ◌≡◌, refl, ap, ◌∙◌, ℕ, String, Bool, true, not, ◌&&◌, Option, none, some, List, [], ◌∷◌,
  if◌then◌else◌, ◌==◌, string_eq, get_elem?, get_elem?-map-none, get_elem?-map-some, arith,
  Bool-cases, Option-cases, inl, inr, ◌⊎◌,
}
use zigbee_control.Prelude.Results.{ok, err, ◌>>=◌}
use zigbee_control.Config.{
  is_space, lstrip, rstrip, strip, strip_and_require, strip_optional, KubernetesConfig, TabConfig,
  validate_k8s, validate_optional_k8s, validate_tab, validate_all, validate_tabs, ConfigService,
  get_tab, assert_restartable, tab_response, to_response, tab_not_found, tab_not_restartable,
}

-- No space at the front.
abbrev pub starts_clean : String → Bool
starts_clean String.[] = true
starts_clean (String.◌∷◌ c s) = not (is_space c)

lstrip-starts_clean : (s : String) → starts_clean (lstrip s) ≡ true
unfolding lstrip
lstrip-starts_clean String.[] = refl
lstrip-starts_clean (String.◌∷◌ c s) = elim (Bool-cases (is_space c)) [
  | inl space ↦ rw space (lstrip-starts_clean s)
  | inr other ↦ rw other (rw other)
]

lstrip-eq : (s : String) → starts_clean s ≡ true → lstrip s ≡ s
unfolding lstrip
lstrip-eq String.[] h = refl
lstrip-eq (String.◌∷◌ c s) h = ground arith

rstrip-starts_clean : (s : String) → starts_clean s ≡ true → starts_clean (rstrip s) ≡ true
unfolding rstrip
rstrip-starts_clean String.[] h = refl
rstrip-starts_clean (String.◌∷◌ c s) h = ground arith

rstrip-rstrip : (s : String) → rstrip (rstrip s) ≡ rstrip s
unfolding rstrip
rstrip-rstrip String.[] = refl
rstrip-rstrip (String.◌∷◌ c s) = elim (Bool-cases (is_space c && rstrip s == "")) [
  | inl gone ↦ rw gone
  | inr kept ↦ rw kept (rw (rstrip-rstrip s) (rw kept))
]

-- Stripping twice is stripping once.
pub strip-strip : (s : String) → strip (strip s) ≡ strip s
unfolding strip
strip-strip s =
    ap rstrip
      (lstrip-eq (rstrip (lstrip s)) (rstrip-starts_clean (lstrip s) (lstrip-starts_clean s)))
    ∙ rstrip-rstrip (lstrip s)

-- Validation is stable, field by field: what it accepts once it accepts as it is.
strip_and_require_twice :
    (s : String) → (strip_and_require s >>= strip_and_require) ≡ strip_and_require s
unfolding strip_and_require
strip_and_require_twice s = ground (arith, strip-strip s)

strip_optional_twice :
    (o : Option String) → (strip_optional o >>= strip_optional) ≡ strip_optional o
unfolding strip_optional
strip_optional_twice none = refl
strip_optional_twice (some s) = ground (arith, strip_and_require_twice s)

validate_k8s_twice :
    (raw : KubernetesConfig) → (validate_k8s raw >>= validate_k8s) ≡ validate_k8s raw
unfolding validate_k8s
validate_k8s_twice raw =
    ground (arith, strip_and_require_twice raw.namespace, strip_and_require_twice raw.deployment)

validate_optional_k8s_twice :
    (raw : Option KubernetesConfig)
    → (validate_optional_k8s raw >>= validate_optional_k8s) ≡ validate_optional_k8s raw
unfolding validate_optional_k8s
validate_optional_k8s_twice none = refl
validate_optional_k8s_twice (some raw) = ground (arith, validate_k8s_twice raw)

validate_tab_twice : (raw : TabConfig) → (validate_tab raw >>= validate_tab) ≡ validate_tab raw
unfolding validate_tab
validate_tab_twice raw = ground (
  arith,
  strip_and_require_twice raw.text,
  strip_and_require_twice raw.icon_url,
  strip_and_require_twice raw.iframe_url,
  strip_optional_twice raw.tab_color,
  validate_optional_k8s_twice raw.k8s,
)

validate_all_twice : (raw : List TabConfig) → (validate_all raw >>= validate_all) ≡ validate_all raw
unfolding validate_all
validate_all_twice [] = refl
validate_all_twice (tab ∷ tabs) = ground (arith, validate_tab_twice tab, validate_all_twice tabs)

-- A configuration that validation returns is valid as it stands: validating it again returns the
-- same tabs, and an error of the first pass is the error of both.
pub validate_tabs_twice :
    (raw : List TabConfig) → (validate_tabs raw >>= validate_tabs) ≡ validate_tabs raw
unfolding validate_tabs
validate_tabs_twice raw = ground (arith, validate_all_twice raw)

-- The clients are told that a tab can be restarted exactly if the service lets it be restarted,
-- and for an index without a tab both know nothing of it.
pub restartable_iff :
    (idx : ℕ) (service : ConfigService)
    → ((get_elem? (to_response service) idx ≡ none)
        × (assert_restartable idx service ≡ err (tab_not_found idx)))
      ⊎ ((tab : TabConfig) × (get_elem? (to_response service) idx ≡ some (tab_response tab))
          × (assert_restartable idx service
              ≡ (if (tab_response tab).restartable then ok tab else err (tab_not_restartable idx))))
unfolding to_response assert_restartable
restartable_iff idx service = elim (Option-cases (get_elem? service.tabs idx)) [
  | inl e ↦ inl (get_elem?-map-none tab_response service.tabs idx e, rw (e, get_tab))
  | inr (tab, e) ↦
      inr (tab, get_elem?-map-some tab_response service.tabs idx e, rw (e, get_tab) (ground arith))
]
