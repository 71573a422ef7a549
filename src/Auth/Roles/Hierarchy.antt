-- ===== src/Auth/Roles/Hierarchy.antt =====
-- The tiers as a relation between role names, and what a user of a tier may do.
use zigbee_control.Prelude.{
  ◌≡◌, refl, String, Bool, true, false, ◌&&◌, ◌||◌, Option, none, some, List, [], ◌∷◌, arith, subst,
  ◌==◌, ==-iff, string_eq, contains, contains-append, any,
}
use zigbee_control.Prelude.Results.{ok, ok-injective}
use zigbee_control.Dict.{get, put, get-put}
use zigbee_control.Auth.Roles.{AuthService, init_roles, tiers, implied_or, expand_roles}

abbrev pub is_role : Option String → String → Bool
is_role none r = false
is_role (some role) r = role == r

-- Whether who has role `a` has role `r`: an admin has all tiers, a writer the write and read tiers,
-- and every role has itself.
unfoldable pub covers : (read_role write_role admin_role : Option String) → String → String → Bool
covers read write admin a r =
    a == r
    || (is_role admin a && (is_role write r || is_role read r))
    || (is_role write a && is_role read r)

-- With all three tiers, where the map has three entries.
all_tiers_exact :
    (x y z : String) (additional : List String) (a r : String)
    → contains (implied_or a (get (tiers (some x) (some y) (some z) additional).hierarchy_map a)) r
      ≡ covers (some x) (some y) (some z) a r
unfolding tiers contains covers get
all_tiers_exact x y z more a r = simp get-put (
    ground (
      arith,
      ==-iff a r,
      ==-iff r a,
      ==-iff x a,
      ==-iff r x,
      ==-iff x r,
      ==-iff y a,
      ==-iff r y,
      ==-iff y r,
      ==-iff z a,
      ==-iff r z,
      ==-iff z r,
    ))

implied_exact :
    (read write admin : Option String) (additional : List String) (a r : String)
    → contains (implied_or a (get (tiers read write admin additional).hierarchy_map a)) r
      ≡ covers read write admin a r
unfolding tiers contains covers get put
implied_exact none none none more a r = ground (arith, ==-iff a r, ==-iff r a)
implied_exact (some x) none none more a r =
    ground (arith, ==-iff a r, ==-iff r a, ==-iff x a, ==-iff r x, ==-iff x r)
implied_exact none (some y) none more a r =
    ground (arith, ==-iff a r, ==-iff r a, ==-iff y a, ==-iff r y, ==-iff y r)
implied_exact none none (some z) more a r =
    ground (arith, ==-iff a r, ==-iff r a, ==-iff z a, ==-iff r z, ==-iff z r)
implied_exact (some x) (some y) none more a r = ground (
  arith,
  ==-iff a r,
  ==-iff r a,
  ==-iff x a,
  ==-iff r x,
  ==-iff x r,
  ==-iff y a,
  ==-iff r y,
  ==-iff y r,
  ==-iff x y,
)
implied_exact (some x) none (some z) more a r = ground (
  arith,
  ==-iff a r,
  ==-iff r a,
  ==-iff x a,
  ==-iff r x,
  ==-iff x r,
  ==-iff z a,
  ==-iff r z,
  ==-iff z r,
  ==-iff x z,
)
implied_exact none (some y) (some z) more a r = ground (
  arith,
  ==-iff a r,
  ==-iff r a,
  ==-iff y a,
  ==-iff r y,
  ==-iff y r,
  ==-iff z a,
  ==-iff r z,
  ==-iff z r,
  ==-iff y z,
)
implied_exact (some x) (some y) (some z) more a r = all_tiers_exact x y z more a r

pub contains-expand_roles :
    (read write admin : Option String) (additional : List String) (raw : List String) (r : String)
    → contains (expand_roles (tiers read write admin additional) raw) r
      ≡ any (λ a. covers read write admin a r) raw
unfolding expand_roles contains
contains-expand_roles read write admin additional [] r = refl
contains-expand_roles read write admin additional (a ∷ raw) r =
    rw contains-append
      (rw (implied_exact, contains-expand_roles read write admin additional raw r) refl)

pub init-tiers :
    (read write admin : Option String) (additional : List String) (service : AuthService)
    → init_roles read write admin additional ≡ ok service
    → tiers read write admin additional ≡ service
unfolding init_roles
init-tiers none write admin more service h = ok-injective refl h
init-tiers (some x) none none more service h = cc
init-tiers (some x) none (some z) more service h = ok-injective refl h
init-tiers (some x) (some y) admin more service h = ok-injective refl h

-- When the roles are set up without an error, a user has exactly the roles that one of the roles of
-- the token covers: its own name, all tiers for the admin tier, and the read tier for the write
-- tier. This holds for every choice of tiers, also when two tiers have the same name.
pub expand_roles_exact :
    (read write admin : Option String) (additional : List String) (service : AuthService)
    (raw : List String) (r : String)
    → init_roles read write admin additional ≡ ok service
    → contains (expand_roles service raw) r ≡ any (λ a. covers read write admin a r) raw
expand_roles_exact read write admin additional service raw r h =
    subst (λ s. contains (expand_roles s raw) r ≡ any (λ a. covers read write admin a r) raw)
      (init-tiers read write admin additional service h)
      (contains-expand_roles read write admin additional raw r)

one_name : (o : Option String) (a b : String) → is_role o a ≡ true → is_role o b ≡ true → a ≡ b
one_name none a b = λ h _. cc
one_name (some x) a b = ground (arith, ==-iff x a, ==-iff x b)

covers_transitive :
    (read write admin : Option String) (a b r : String)
    → covers read write admin a b ≡ true
    → covers read write admin b r ≡ true
    → covers read write admin a r ≡ true
unfolding covers
covers_transitive read write admin a b r = ground (
  arith,
  ==-iff a b,
  ==-iff b r,
  ==-iff a r,
  one_name admin a b,
  one_name write a b,
  one_name read a b,
  one_name write b r,
  one_name read b r,
  one_name admin b r,
  one_name write a r,
  one_name read a r,
  one_name admin a r,
)

any_transitive :
    (read write admin : Option String) (raw : List String) (b r : String)
    → covers read write admin b r ≡ true
    → any (λ a. covers read write admin a b) raw ≡ true
    → any (λ a. covers read write admin a r) raw ≡ true
any_transitive read write admin [] b r h = λ e. e
any_transitive read write admin (a ∷ raw) b r h =
    ground
      (arith, covers_transitive read write admin a b r, any_transitive read write admin raw b r h)

-- A user who has a role has every role that it covers.
pub has_covered :
    (read write admin : Option String) (additional : List String) (service : AuthService)
    (raw : List String) (b r : String)
    → init_roles read write admin additional ≡ ok service
    → covers read write admin b r ≡ true
    → contains (expand_roles service raw) b ≡ true
    → contains (expand_roles service raw) r ≡ true
has_covered read write admin additional service raw b r h c =
    rw
      (
        expand_roles_exact read write admin additional service raw b h,
        expand_roles_exact read write admin additional service raw r h,
      )
      (any_transitive read write admin raw b r c)
