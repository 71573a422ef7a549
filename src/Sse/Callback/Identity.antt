-- ===== src/Sse/Callback/Identity.antt =====
-- Whose identity a connection gets.
use zigbee_control.Prelude.{
  ◌≡◌, refl, ◌&&◌, if◌then◌else◌, ◌⊎◌, inl, inr, String, true, false, Option, none, some, List,
  arith, Bool-cases, truthy, ◌==◌, ==-iff, string_eq,
}
use zigbee_control.Prelude.Results.{Result, ok, err}
use zigbee_control.Dict.{get, has, get-put}
use zigbee_control.Settings.{Settings}
use zigbee_control.Auth.Tokens.{AuthenticationException, AuthContext}
use zigbee_control.Sse.{Manager, Env, bind_identity}
use zigbee_control.Sse.Interleaving.{Steps, done, next, binds}
use zigbee_control.Sse.Callback.{
  extract_token_from_headers, bind_validated, bind_token, bind_callback_identity,
}

bind_identity_at :
    (r subject q : String) (m : Manager)
    → get (bind_identity r subject m).identity_map q
      ≡ (if has m.connections r && r == q then some subject else get m.identity_map q)
unfolding bind_identity
bind_identity_at r subject q m = elim (Bool-cases (has m.connections r)) [
  | inl e ↦ simp e (get-put m.identity_map r q subject)
  | inr e ↦ simp e refl
]

identity-bind_identity :
    (r subject q : String) (m : Manager)
    → let after = get (bind_identity r subject m).identity_map q in
      (after ≡ get m.identity_map q) ⊎ ((q ≡ r) × (after ≡ some subject))
identity-bind_identity r subject q m =
    let at = bind_identity_at r subject q m in ground (arith, ==-iff r q)

module _ (env : Env) (validate : String → Result AuthenticationException AuthContext)
    (settings : Settings) where
  -- The subject that a call with these headers may speak for: anybody's stand-in where OIDC is
  -- disabled, else the subject of the valid token that the headers carry.
  pub data IsVouched (headers : List (String × String)) : String → Type 0 where
    stands_in : settings.oidc_enabled ≡ false → IsVouched headers "local-user"
    validated :
        (token : String) (context : AuthContext)
        → settings.oidc_enabled ≡ true
        → extract_token_from_headers headers settings.oidc_cookie_name ≡ some token
        → validate token ≡ ok context
        → IsVouched headers context.subject

  pub data Bound (r : String) (headers : List (String × String)) (m : Manager)
      : Manager → Type 0 where
    unbound : Bound r headers m m
    bound :
        (subject : String)
        → IsVouched headers subject
        → Bound r headers m (bind_identity r subject m)

  bind_validated-Bound :
      (r token : String) (headers : List (String × String)) (m : Manager)
      (outcome : Result AuthenticationException AuthContext)
      → settings.oidc_enabled ≡ true
      → extract_token_from_headers headers settings.oidc_cookie_name ≡ some token
      → validate token ≡ outcome
      → Bound r headers m (bind_validated env validate settings r outcome m)
  bind_validated-Bound r token headers m (err e) on t v = unbound
  bind_validated-Bound r token headers m (ok context) on t v =
      bound context.subject (validated token context on t v)

  bind_token-Bound :
      (r : String) (headers : List (String × String)) (m : Manager) (token : Option String)
      → settings.oidc_enabled ≡ true
      → extract_token_from_headers headers settings.oidc_cookie_name ≡ token
      → Bound r headers m (bind_token env validate settings r token m)
  bind_token-Bound r headers m none on t = unbound
  bind_token-Bound r headers m (some token) on t = elim (Bool-cases (truthy token)) [
    | inl e ↦ rw e (bind_validated-Bound r token headers m (validate token) on t refl)
    | inr e ↦ rw e unbound
  ]

  pub bind_callback_identity-Bound :
      (r : String) (headers : List (String × String)) (m : Manager)
      → Bound r headers m (bind_callback_identity env validate settings r headers m)
  unfolding bind_callback_identity
  bind_callback_identity-Bound r headers m = elim (Bool-cases settings.oidc_enabled) [
    | inl e ↦ simp (e) (
        bind_token-Bound r headers m (extract_token_from_headers headers settings.oidc_cookie_name)
          e refl)
    | inr e ↦ simp (e) (bound "local-user" (stands_in e))
  ]

  pub Bound-Steps :
      (owner : String → String) {r : String} {headers : List (String × String)} {m n : Manager}
      → Bound r headers m n
      → Steps owner m n
  Bound-Steps owner unbound = done
  Bound-Steps owner {r} (bound subject v) = next done (binds r subject)

  Bound-identity :
      {r : String} {headers : List (String × String)} {m n : Manager} (q : String)
      → Bound r headers m n
      → (get n.identity_map q ≡ get m.identity_map q)
        ⊎ ((q ≡ r)
            × (subject : String) × IsVouched headers subject
            × (get n.identity_map q ≡ some subject))
  Bound-identity q unbound = inl refl
  Bound-identity {r} {m = m} q (bound subject v) = elim (identity-bind_identity r subject q m) [
    | inl kept ↦ inl kept
    | inr (at, new) ↦ inr (at, subject, v, new)
  ]

  -- After the identity of a connection was bound, every request id has the identity that it had, or
  -- none if it had none, or it is the request id of the connection, and its identity is the subject of
  -- the valid token in the headers or, with OIDC disabled, the stand-in.
  pub bind_callback_identity-IsVouched :
      (r : String) (headers : List (String × String)) (m : Manager) (q : String)
      → let after = get (bind_callback_identity env validate settings r headers m).identity_map q in
        (after ≡ get m.identity_map q)
        ⊎ ((q ≡ r) × (subject : String) × IsVouched headers subject × (after ≡ some subject))
  bind_callback_identity-IsVouched r headers m q =
      Bound-identity q (bind_callback_identity-Bound r headers m)
