-- ===== src/Sse/Coherence.antt =====
-- The two mappings of the manager agree, whatever locked sections run in whatever order.
use zigbee_control.Prelude.{
  ◌≡◌, String, Option, none, some, arith, ==-iff, string_eq, Option-cases, Bool-cases, inl, inr,
  true, false, truthy,
}
use zigbee_control.Dict.{get, pop, get-put, get-pop, Distinct, put-Distinct, pop-Distinct}
use zigbee_control.Prelude.Int.{pred}
use zigbee_control.Sse.{
  Manager, Connection, init, holds, register, unregister, forget, bind_identity,
}

-- `owner` says for which request id the gateway issued a token. Each connection is found again
-- from its token, and a token is mapped to its owner only.
pub record IsCoherent (owner : String → String) (m : Manager) : Type 0 where
  pub forward :
      (r : String) (c : Connection)
      → get m.connections r ≡ some c
      → (get m.token_to_request_id c.token ≡ some r) × (owner c.token ≡ r)
  pub owned : (t r : String) → get m.token_to_request_id t ≡ some r → owner t ≡ r
  pub distinct : Distinct m.connections

-- The three outcomes of the locked section of `on_disconnect`.
pub unregister_cases {ℓ} :
    (P : Option String × Manager → Type ℓ) (t : String) (m : Manager)
    → P (none, m)
    → ((r : String)
        → get m.token_to_request_id t ≡ some r
        → holds (get m.connections r) t ≡ false
        → P (none, record m { token_to_request_id = pop m.token_to_request_id t }))
    → ((r : String)
        → get m.token_to_request_id t ≡ some r
        → holds (get m.connections r) t ≡ true
        → P (
          some r,
          record m {
            connections = pop m.connections r;
            token_to_request_id = pop m.token_to_request_id t;
            identity_map = pop m.identity_map r;
            active = pred m.active;
          },
        ))
    → P (unregister t m)
unfolding unregister
unregister_cases P t m unknown stale live = elim (Option-cases (get m.token_to_request_id t)) [
  | inl e ↦ rw (e, unregister) unknown
  | inr (r, e) ↦ elim (Bool-cases (truthy r)) [
    | inl named ↦ elim (Bool-cases (holds (get m.connections r) t)) [
      | inl h ↦ rw (e, unregister) (rw named (rw h (live r e h)))
      | inr h ↦ rw (e, unregister) (rw named (rw h (stale r e h)))
    ]
    | inr unnamed ↦ rw (e, unregister) (rw unnamed unknown)
  ]
]

module _ (owner : String → String) where
  pub init-IsCoherent : IsCoherent owner init
  unfolding get
  init-IsCoherent = record { forward = λ r c h. cc; owned = λ t r h. cc; distinct = tt }

  pub register-IsCoherent :
      (t url : String) (m : Manager)
      → IsCoherent owner m
      → IsCoherent owner (register (owner t) t url m).1
  unfolding register
  register-IsCoherent t url m v = elim (Option-cases (get m.connections (owner t))) [
    | inl e ↦ rw e (record {
      forward =
          λ r c. simp get-put (ground (arith, v.forward r c, ==-iff (owner t) r, ==-iff t c.token));
      owned = λ u r. simp get-put (ground (arith, v.owned u r, ==-iff t u));
      distinct = put-Distinct m.connections (owner t) _ v.distinct;
    })
    | inr (old, e) ↦ rw e (record {
      forward = λ r c.
          simp (get-put, get-pop)
            (ground (
              arith,
              v.forward r c,
              v.forward (owner t) old e,
              ==-iff (owner t) r,
              ==-iff t c.token,
              ==-iff old.token c.token,
            ));
      owned = λ u r. simp (get-put, get-pop) (ground (arith, v.owned u r, ==-iff t u));
      distinct = put-Distinct m.connections (owner t) _ v.distinct;
    })
  ]

  pub unregister-IsCoherent :
      (t : String) (m : Manager) → IsCoherent owner m → IsCoherent owner (unregister t m).1
  unregister-IsCoherent t m v =
      unregister_cases (λ r. IsCoherent owner r.1) t m v
        (λ r e stale. record {
          forward = λ r' c. simp get-pop (ground (arith, v.forward r' c, ==-iff t c.token));
          owned = λ u r'. simp get-pop (ground (arith, v.owned u r'));
          distinct = v.distinct;
        })
        λ r e live. record {
          forward = λ r' c.
              simp get-pop
                (ground (arith, v.forward r' c, v.owned t r e, ==-iff r r', ==-iff t c.token));
          owned = λ u r'. simp get-pop (ground (arith, v.owned u r'));
          distinct = pop-Distinct m.connections r v.distinct;
        }

  pub bind_identity-IsCoherent :
      (r subject : String) (m : Manager)
      → IsCoherent owner m
      → IsCoherent owner (bind_identity r subject m)
  unfolding bind_identity
  bind_identity-IsCoherent r subject m v = record {
    forward = λ r' c. ground (arith, v.forward r' c);
    owned = λ t r'. ground (arith, v.owned t r');
    distinct = ground arith;
  }

  pub forget-IsCoherent :
      (t : String) (m : Manager) → IsCoherent owner m → IsCoherent owner (forget (owner t) t m)
  unfolding forget
  forget-IsCoherent t m v = record {
    forward =
        λ r c. simp get-pop (ground (arith, v.forward r c, ==-iff (owner t) r, ==-iff t c.token));
    owned = λ u r. simp get-pop (ground (arith, v.owned u r));
    distinct = pop-Distinct m.connections (owner t) v.distinct;
  }
