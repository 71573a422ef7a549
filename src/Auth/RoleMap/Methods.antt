-- ===== src/Auth/RoleMap/Methods.antt =====
-- Where the roles of the OpenAPI document come from, for one view function.
use zigbee_control.Prelude.{
  ◌≡◌, refl, sym, ◌∙◌, ◌⊎◌, inl, inr, ℕ, zero, suc, String, false, ◌&&◌, Option, none, some, List,
  [], ◌∷◌, if◌then◌else◌, arith, ◌==◌, ==-iff, ==-refl, string_eq, Bool-cases, get_elem?,
}
use mathlib.Core.Option.{some-injective}
use zigbee_control.Dict.{get, put, get-put}
use zigbee_control.Auth.Roles.{AuthService, ViewFunc, resolve_required_role}
use zigbee_control.Auth.RoleMap.{
  RoleMap, role_label, methods_of, put_role, put_label, is_ignored, add_methods,
}

-- The role that the table has for a path and a method.
abbrev pub role_at : RoleMap → (path method : String) → Option String
role_at role_map path method = get (methods_of (get role_map path)) method

role_at-put_role :
    (role_map : RoleMap) (path method label path' method' : String)
    → role_at (put_role role_map path method label) path' method'
      ≡ (if path == path' && method == method' then some label else role_at role_map path' method')
unfolding put_role
role_at-put_role role_map path method label path' method' = elim (Bool-cases (path == path')) [
  | inl same ↦
      rw (get-put role_map path path' (put (methods_of (get role_map path)) method label)) (
        rw same (
          rw (get-put (methods_of (get role_map path)) method method' label)
            (rw ((==-iff path path').0 same) refl)))
  | inr other ↦
      rw (get-put role_map path path' (put (methods_of (get role_map path)) method label))
        (rw other refl)
]

-- The table has a role for the path and the method.
abbrev pub Has : RoleMap → (path method : String) → Type 0
Has role_map path method = (label : String) × (role_at role_map path method ≡ some label)

module _ (path method path' method' : String) where
  put_label-Has :
      (role_map : RoleMap) (label : Option String)
      → Has role_map path' method'
      → Has (put_label role_map path method label) path' method'
  put_label-Has role_map none h = h
  put_label-Has role_map (some label) (old, h) =
      elim (Bool-cases (path == path' && method == method')) [
        | inl same ↦
            (label, role_at-put_role role_map path method label path' method' ∙ rw same refl)
        | inr other ↦ (old, role_at-put_role role_map path method label path' method' ∙ rw other h)
      ]

  put_label-origin :
      (role_map : RoleMap) (label : Option String) (found : String)
      → role_at (put_label role_map path method label) path' method' ≡ some found
      → (role_at role_map path' method' ≡ some found)
        ⊎ ((path ≡ path') × (method ≡ method') × (label ≡ some found))
  put_label-origin role_map none found h = inl h
  put_label-origin role_map (some label) found h =
      elim (Bool-cases (path == path' && method == method')) [
        | inl same ↦ inr (
          ground (arith, ==-iff path path'),
          ground (arith, ==-iff method method'),
          (sym (role_at-put_role role_map path method label path' method' ∙ rw same refl)) ∙ h,
        )
        | inr other ↦
            inl
              (sym (role_at-put_role role_map path method label path' method' ∙ rw other refl) ∙ h)
      ]

put_label-new :
    (role_map : RoleMap) (path method label : String)
    → Has (put_label role_map path method (some label)) path method
put_label-new role_map path method label = (
  label,
  role_at-put_role role_map path method label path method
      ∙ rw (==-refl path) (rw (==-refl method) refl),
)

module _ (lower : String → String) (sorted : List String → List String)
    (service : AuthService) where
  -- One of the methods requires the role.
  pub record ByMethod (func : ViewFunc) (methods : List String) (method_lower label : String)
      : Type 0 where
    pub index : ℕ
    pub method : String
    pub listed : get_elem? methods index ≡ some method
    pub counted : is_ignored (lower method) ≡ false
    pub spelled : lower method ≡ method_lower
    pub required :
        role_label lower sorted (resolve_required_role service method (some func)) ≡ some label

  module _ (path : String) (func : ViewFunc) where
    abbrev labelled : String → RoleMap → RoleMap
    labelled method role_map =
        if is_ignored (lower method)
        then role_map
        else put_label role_map path (lower method)
            (role_label lower sorted (resolve_required_role service method (some func)))

    labelled-Has :
        (method path' method' : String) (role_map : RoleMap)
        → Has role_map path' method'
        → Has (labelled method role_map) path' method'
    labelled-Has method path' method' role_map h = elim (Bool-cases (is_ignored (lower method))) [
      | inl ignored ↦ rw ignored h
      | inr counted ↦ rw counted (put_label-Has path (lower method) path' method' role_map _ h)
    ]

    pub add_methods-Has :
        (methods : List String) (path' method' : String) (role_map : RoleMap)
        → Has role_map path' method'
        → Has (add_methods lower sorted service path func methods role_map) path' method'
    unfolding add_methods
    add_methods-Has [] path' method' role_map h = h
    add_methods-Has (method ∷ methods) path' method' role_map h =
        add_methods-Has methods path' method' (labelled method role_map)
          (labelled-Has method path' method' role_map h)

    pub add_methods-listed :
        (methods : List String) (i : ℕ) (method label : String) (role_map : RoleMap)
        → get_elem? methods i ≡ some method
        → is_ignored (lower method) ≡ false
        → role_label lower sorted (resolve_required_role service method (some func)) ≡ some label
        → Has (add_methods lower sorted service path func methods role_map) path (lower method)
    unfolding add_methods
    add_methods-listed [] i method label role_map h counted required = absurd (cc h)
    add_methods-listed (x ∷ methods) zero method label role_map h counted required =
        add_methods-Has methods path (lower method) (labelled x role_map) (
          rw (some-injective _ _ h)
            (rw counted (rw required (put_label-new role_map path (lower method) label))))
    add_methods-listed (x ∷ methods) (suc i) method label role_map h counted required =
        add_methods-listed methods i method label (labelled x role_map) h counted required

    first_origin :
        (x : String) (methods : List String) (path' method' found : String) (role_map : RoleMap)
        → role_at (labelled x role_map) path' method' ≡ some found
        → (role_at role_map path' method' ≡ some found)
          ⊎ ((path ≡ path') × ByMethod func (x ∷ methods) method' found)
    first_origin x methods path' method' found role_map = elim (Bool-cases (is_ignored (lower x))) [
      | inl ignored ↦ rw ignored (λ h. inl h)
      | inr counted ↦ rw counted (λ h.
          elim (put_label-origin path (lower x) path' method' role_map
            (role_label lower sorted (resolve_required_role service x (some func))) found h) [
              | inl old ↦ inl old
              | inr (same, spelled, required) ↦ inr (
                same,
                record {
                  index = 0;
                  method = x;
                  listed = refl;
                  counted = counted;
                  spelled = spelled;
                  required = required;
                },
              )
            ])
    ]

    pub add_methods-origin :
        (methods : List String) (path' method' found : String) (role_map : RoleMap)
        → role_at (add_methods lower sorted service path func methods role_map) path' method'
          ≡ some found
        → (role_at role_map path' method' ≡ some found)
          ⊎ ((path ≡ path') × ByMethod func methods method' found)
    unfolding add_methods
    add_methods-origin [] path' method' found role_map h = inl h
    add_methods-origin (x ∷ methods) path' method' found role_map h =
        elim (add_methods-origin methods path' method' found (labelled x role_map) h) [
          | inr (same, o) ↦ inr (
            same,
            record {
              index = suc o.index;
              method = o.method;
              listed = o.listed;
              counted = o.counted;
              spelled = o.spelled;
              required = o.required;
            },
          )
          | inl here ↦ first_origin x methods path' method' found role_map here
        ]
