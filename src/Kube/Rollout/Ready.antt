-- ===== src/Kube/Rollout/Ready.antt =====
-- When `_deployment_ready` says that a rollout is complete.
use zigbee_control.Prelude.{
  ◌≡◌, ◌≢◌, refl, String, Bool, true, false, not, Option, none, some, List, [], ◌∷◌, ◌++◌,
  if◌then◌else◌, arith, Bool-cases, inl, inr, All,
}
use zigbee_control.Prelude.Int.{ℤ, ltb_ℤ}
use zigbee_control.Kube.Value.{
  Value, get_field, get_int_field, is_null, is_text, says_true, iterate_or_empty,
}
use zigbee_control.Kube.Rollout.{
  at_least, is_ahead, enough_replicas, or_else, availability, ready_at, ready_if_observed,
  deployment_ready,
}

module _ (parse_int : String → Option ℤ) where
  abbrev pub status_of : Value → Value
  status_of obj = get_field obj ("status" ∷ [])

  abbrev pub observed_of : Value → Option ℤ
  observed_of obj =
      get_int_field parse_int (status_of obj) ("observed_generation" ∷ "observedGeneration" ∷ [])

  abbrev pub generation_of : Value → Option ℤ
  generation_of obj = get_int_field parse_int (get_field obj ("metadata" ∷ [])) ("generation" ∷ [])

  abbrev pub replicas_of : Value → Option ℤ
  replicas_of obj = get_int_field parse_int (get_field obj ("spec" ∷ [])) ("replicas" ∷ [])

  abbrev pub ready_of : Value → Option ℤ
  ready_of obj = get_int_field parse_int (status_of obj) ("ready_replicas" ∷ "readyReplicas" ∷ [])

  abbrev pub available_of : Value → Option ℤ
  available_of obj =
      get_int_field parse_int (status_of obj) ("available_replicas" ∷ "availableReplicas" ∷ [])

  abbrev pub updated_of : Value → Option ℤ
  updated_of obj =
      get_int_field parse_int (status_of obj) ("updated_replicas" ∷ "updatedReplicas" ∷ [])

  -- What a deployment that is found ready satisfies.
  pub record IsRolledOut (obj : Value) (target : ℤ) : Type 0 where
    pub observed : ℤ
    pub observes : observed_of obj ≡ some observed
    pub reached : ltb_ℤ observed target ≡ false
    pub settled : (g : ℤ) → generation_of obj ≡ some g → ltb_ℤ observed g ≡ false
    pub scaled :
        (d : ℤ)
        → replicas_of obj ≡ some d
        → (at_least (ready_of obj) d ≡ true)
          × (at_least (available_of obj) d ≡ true)
          × (at_least (updated_of obj) d ≡ true)

  enough_scaled :
      (d : ℤ) (other ready available updated : Option ℤ)
      → enough_replicas (or_else (some d) other) ready available updated ≡ true
      → (at_least ready d ≡ true) × (at_least available d ≡ true) × (at_least updated d ≡ true)
  enough_scaled d other ready available updated h = ground arith

  guards :
      (enough ahead : Bool) (rest : Option Bool)
      → (if not enough then some false else if ahead then some false else rest) ≡ some true
      → (enough ≡ true) × (ahead ≡ false)
  guards enough ahead rest h = ground arith

  observed_guard :
      (obj status : Value) (o : Option ℤ) (target : ℤ)
      → ready_if_observed parse_int obj status o target ≡ some true
      → (observed : ℤ) × (o ≡ some observed)
        × (ltb_ℤ observed target ≡ false)
        × (ready_at parse_int obj status observed target ≡ some true)
  observed_guard obj status none target h = cc
  observed_guard obj status (some observed) target h = elim (Bool-cases (ltb_ℤ observed target)) [
    | inl early ↦ absurd (cc (rw early at h))
    | inr late ↦ (observed, refl, late, rw late at h)
  ]

  -- A deployment is found ready only if the controller has observed a generation that is neither
  -- below the target nor below the object's own, and, if the desired replicas are known from the
  -- spec, its ready, available and updated replicas are known and none is below them.
  pub deployment_ready-IsRolledOut :
      (obj : Value) (target : ℤ)
      → deployment_ready parse_int obj target ≡ some true
      → IsRolledOut obj target
  unfolding deployment_ready
  deployment_ready-IsRolledOut obj target h = elim (Bool-cases (is_null (status_of obj))) [
    | inl absent ↦ absurd (cc (rw absent at h))
    | inr present ↦
        let (observed, observes, reached, ready) =
          observed_guard obj (status_of obj) (observed_of obj) target (rw present at h) in
        let (enough, not_ahead) = guards _ (is_ahead (generation_of obj) observed) _ ready in
        record {
          observed = observed;
          observes = observes;
          reached = reached;
          settled = λ g e. rw e at not_ahead;
          scaled = λ d e.
              enough_scaled d (get_int_field parse_int (status_of obj) ("replicas" ∷ []))
                (ready_of obj) (available_of obj) (updated_of obj) (rw e at enough);
        }
  ]

  availability_blocked :
      (target : ℤ) (before : List Value) (c : Value) (after : List Value)
      → All (λ b. is_text (get_field b ("type" ∷ [])) "Available" ≡ false) before
      → is_text (get_field c ("type" ∷ [])) "Available" ≡ true
      → says_true (get_field c ("status" ∷ [])) ≡ false
      → availability parse_int target (before ++ c ∷ after) ≡ some false
  unfolding availability
  availability_blocked target [] c after other named fails = rw (named, fails)
  availability_blocked target (b ∷ before) c after other named fails =
      rw other.0 (availability_blocked target before c after other.1 named fails)

  rest_guard :
      (enough ahead : Bool) (rest : Option Bool)
      → (if not enough then some false else if ahead then some false else rest) ≡ some true
      → rest ≡ some true
  rest_guard enough ahead rest h = ground arith

  -- A deployment whose first condition of type Available has a status other than true is not
  -- found ready, whatever its replica counts are.
  pub deployment_ready-unavailable :
      (obj : Value) (target : ℤ) (before : List Value) (c : Value) (after : List Value)
      → iterate_or_empty (get_field (status_of obj) ("conditions" ∷ []))
        ≡ some (before ++ c ∷ after)
      → All (λ b. is_text (get_field b ("type" ∷ [])) "Available" ≡ false) before
      → is_text (get_field c ("type" ∷ [])) "Available" ≡ true
      → says_true (get_field c ("status" ∷ [])) ≡ false
      → deployment_ready parse_int obj target ≢ some true
  unfolding deployment_ready
  deployment_ready-unavailable obj target before c after listed other named fails h =
      elim (Bool-cases (is_null (status_of obj))) [
        | inl absent ↦ cc (rw absent at h)
        | inr present ↦
            let (observed, _, _, ready) =
              observed_guard obj (status_of obj) (observed_of obj) target (rw present at h) in
            let judged = rest_guard _ (is_ahead (generation_of obj) observed) _ ready in
            cc (rw (listed, availability_blocked target before c after other named fails) at judged)
      ]
