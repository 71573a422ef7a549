-- ===== src/Sse/Lifetime.antt =====
-- The life of a connection: registration, replacement, disconnection, and what stays behind.
use zigbee_control.Prelude.{
  ◌≡◌, ◌≢◌, refl, String, true, false, none, some, arith, ==-iff, ==-refl, string_eq, if◌then◌else◌,
  ◌==◌, truthy, inl, inr, length, suc, ◌⊎◌,
}
use zigbee_control.Prelude.Int.{succ, pred, pred-succ}
use zigbee_control.Dict.{get, pop, has, get-put, get-pop, length-put}
use zigbee_control.Sse.{
  Manager, Connection, register, unregister, forget, get_connection_info, has_connection, holds,
}
use zigbee_control.Sse.Coherence.{unregister_cases}

-- What the locked section of `on_disconnect` does for the token of a live connection.
unregister_live :
    (t r : String) (m : Manager)
    → truthy r ≡ true
    → get m.token_to_request_id t ≡ some r
    → holds (get m.connections r) t ≡ true
    → unregister t m ≡ (
      some r,
      record m {
        connections = pop m.connections r;
        token_to_request_id = pop m.token_to_request_id t;
        identity_map = pop m.identity_map r;
        active = pred m.active;
      },
    )
unfolding unregister
unregister_live t r m named e h = rw (e, unregister) (rw named (rw h))

module _ (r t url : String) (m : Manager) where
  -- Disconnecting a fresh token right after its connect callback, for a request id that is not
  -- empty, reports the request id, leaves no connection and no identity for it, keeps those of every
  -- other request id, and leaves the gauge as it was before the connect.
  pub unregister-register :
      truthy r ≡ true
      → (j : String)
      → let (gone, m') = unregister t (register r t url m).1 in
        (gone ≡ some r)
        × (get_connection_info j m' ≡ (if r == j then none else get_connection_info j m))
        × (get m'.identity_map j ≡ (if r == j then none else get m.identity_map j))
        × (m'.active ≡ m.active)
  unfolding register get_connection_info has
  unregister-register named j =
      let m' = (register r t url m).1 in
      rw (unregister_live t r m' named (simp (get-put, ==-refl)) (simp (get-put, ==-refl))) (
        refl,
        simp (get-put, get-pop) (ground (arith, ==-iff r j)),
        simp get-pop,
        pred-succ m.active,
      )

-- A disconnect callback changes no connection and no identity, and reports nothing, unless its
-- token is the current token of a connection; then it removes just the connection and the
-- identity of that request id, lowers the gauge by one, and reports the request id.
pub unregister_exact :
    (t : String) (m : Manager)
    → let (gone, m') = unregister t m in
      ((gone ≡ none)
        × (m'.connections ≡ m.connections)
        × (m'.identity_map ≡ m.identity_map)
        × (m'.active ≡ m.active))
      ⊎ ((r : String) × (gone ≡ some r)
          × (get m.token_to_request_id t ≡ some r)
          × (holds (get m.connections r) t ≡ true)
          × (m'.connections ≡ pop m.connections r)
          × (m'.identity_map ≡ pop m.identity_map r)
          × (m'.active ≡ pred m.active))
unregister_exact t m =
    unregister_cases
      (λ (gone, m').
        ((gone ≡ none)
          × (m'.connections ≡ m.connections)
          × (m'.identity_map ≡ m.identity_map)
          × (m'.active ≡ m.active))
        ⊎ ((r : String) × (gone ≡ some r)
            × (get m.token_to_request_id t ≡ some r)
            × (holds (get m.connections r) t ≡ true)
            × (m'.connections ≡ pop m.connections r)
            × (m'.identity_map ≡ pop m.identity_map r)
            × (m'.active ≡ pred m.active)))
      t m (inl (refl, refl, refl, refl)) (λ r e h. inl (refl, refl, refl, refl))
      λ r e h. inr (r, refl, e, h, refl, refl, refl)

-- The clean-up after a 404 answer does not clear the identity: a later connection of the same
-- request id has the subject that was bound before, until it binds one itself.
pub register-forget_keeps_identity :
    (r t t' url : String) (m : Manager)
    → get_connection_info r (register r t' url (forget r t m)).1
      ≡ some (record { request_id = r; subject = get m.identity_map r })
unfolding register forget get_connection_info has
register-forget_keeps_identity r t t' url m = simp (get-put, ==-refl)

-- A clean-up that comes with the token of an earlier connection removes the current one, but
-- leaves its token mapped. Its disconnect callback is then taken for a stale one: nothing is
-- reported, and the gauge is not lowered.
pub unregister-forget_late :
    (r t : String) (c : Connection) (m : Manager)
    → get m.connections r ≡ some c
    → get m.token_to_request_id c.token ≡ some r
    → t ≢ c.token
    → let m' = forget r t m in
      (has_connection r m' ≡ false)
      × (get m'.token_to_request_id c.token ≡ some r)
      × ((unregister c.token m').0 ≡ none)
      × ((unregister c.token m').1.active ≡ m.active)
unfolding forget has_connection has
unregister-forget_late r t c m e f late =
    let m' = forget r t m in
    let gone : has_connection r m' ≡ false = simp (get-pop, ==-refl) in
    let mapped : get m'.token_to_request_id c.token ≡ some r =
      simp get-pop (ground (arith, ==-iff t c.token)) in
    elim (unregister_exact c.token m') [
      | inl (reported, _, _, kept) ↦ (gone, mapped, reported, kept)
      | inr (r', _, known, held, _, _, _) ↦
          absurd (ground (arith, get-pop m.connections r r', ==-iff r r'))
    ]

-- Replacing a connection raises the gauge of active connections by one, although the number of
-- connections stays; registering a new request id raises both.
pub active-register :
    (r t url : String) (m : Manager)
    → let m' = (register r t url m).1 in
      (m'.active ≡ succ m.active)
      × (length m'.connections
          ≡ (if has_connection r m then length m.connections else suc (length m.connections)))
unfolding register has_connection
active-register r t url m = (refl, length-put m.connections r _)
