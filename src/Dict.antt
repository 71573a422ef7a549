-- ===== src/Dict.antt =====
-- A Python dict: keys in insertion order, a key that is written again keeps its place.
use zigbee_control.Prelude.{
  ◌≡◌, refl, Bool, true, false, Option, none, some, List, [], ◌∷◌, arith, Eq, ◌==◌, ==-iff, ==-refl,
  All, Option-cases, inl, inr, length, suc, if◌then◌else◌,
}

abbrev pub Dict {ℓ κ} : Type ℓ → Type κ → Type (ℓ ⊔ κ)
Dict K V = List (K × V)

abbrev pub is_some {ℓ} : {A : Type ℓ} → Option A → Bool
is_some none = false
is_some (some a) = true

abbrev pub map_option {ℓ} : {V : Type ℓ} → (V → V) → Option V → Option V
map_option f none = none
map_option f (some v) = some (f v)

module _ {ℓ κ} {K : Type ℓ} {V : Type κ} ⦃e : Eq K⦄ where
  -- `d.get(k)`
  unfoldable pub get : Dict K V → K → Option V
  get [] k = none
  get ((j, v) ∷ d) k = if j == k then some v else get d k

  -- `d[k] = v`
  unfoldable pub put : Dict K V → K → V → Dict K V
  put [] k v = (k, v) ∷ []
  put ((j, w) ∷ d) k v = if j == k then (j, v) ∷ d else (j, w) ∷ put d k v

  -- `d.pop(k, None)`
  unfoldable pub pop : Dict K V → K → Dict K V
  pop [] k = []
  pop ((j, w) ∷ d) k = let rest = pop d k in if j == k then rest else (j, w) ∷ rest

  -- `k in d`
  unfoldable pub has : Dict K V → K → Bool
  unfolding get
  has d k = is_some (get d k)

  pub get-put :
      (d : Dict K V) (k j : K) (v : V) → get (put d k v) j ≡ (if k == j then some v else get d j)
  unfolding get put
  get-put [] k j v = refl
  get-put ((i, w) ∷ d) k j v = ground (arith, ==-iff k j, ==-iff i k, ==-iff i j, get-put d k j v)

  pub get-pop : (d : Dict K V) (k j : K) → get (pop d k) j ≡ (if k == j then none else get d j)
  unfolding get pop
  get-pop [] k j = ground arith
  get-pop ((i, w) ∷ d) k j = ground (arith, ==-iff k j, ==-iff i k, ==-iff i j, get-pop d k j)

  pub has-get : (d : Dict K V) (k : K) → has d k ≡ is_some (get d k)
  unfolding has
  has-get d k = refl

  -- Each key stands once.
  abbrev pub Distinct : Dict K V → Type κ
  Distinct [] = Unit
  Distinct ((k, v) ∷ d) = (get d k ≡ none) × Distinct d

  pub put-Distinct : (d : Dict K V) (k : K) (v : V) → Distinct d → Distinct (put d k v)
  unfolding get put
  put-Distinct [] k v h = (refl, tt)
  put-Distinct ((j, w) ∷ d) k v h =
      ground (arith, put-Distinct d k v, get-put d k j v, ==-iff k j, ==-iff j k)

  pub pop-Distinct : (d : Dict K V) (k : K) → Distinct d → Distinct (pop d k)
  unfolding pop
  pop-Distinct [] k h = tt
  pop-Distinct ((j, w) ∷ d) k h =
      ground (arith, pop-Distinct d k, get-pop d k j, ==-iff k j, ==-iff j k)

  -- With distinct keys, what holds of all that `get` finds holds of all items.
  pub All-items {μ} :
      (P : K × V → Type μ) (d : Dict K V)
      → Distinct d
      → ((k : K) (v : V) → get d k ≡ some v → P (k, v))
      → All P d
  unfolding get
  All-items P [] h f = tt
  All-items P ((j, w) ∷ d) h f =
      (f j w (rw (==-refl j)), All-items P d h.1 (λ k v e. f k v (ground (arith, ==-iff j k))))

  pub length-put :
      (d : Dict K V) (k : K) (v : V)
      → length (put d k v) ≡ (if has d k then length d else suc (length d))
  unfolding get put has
  length-put [] k v = refl
  length-put ((j, w) ∷ d) k v = ground (arith, length-put d k v)

  -- A value that is mutated where it is.
  unfoldable pub adjust : Dict K V → K → (V → V) → Dict K V
  adjust d k f = elim (get d k) [ none ↦ d | some v ↦ put d k (f v) ]

  pub get-adjust :
      (d : Dict K V) (k j : K) (f : V → V)
      → get (adjust d k f) j ≡ (if k == j then map_option f (get d j) else get d j)
  unfolding adjust
  get-adjust d k j f = elim (Option-cases (get d k)) [
    | inl e ↦ rw (e, adjust) (ground (arith, ==-iff k j))
    | inr (v, e) ↦ rw (e, adjust) (rw get-put (ground (arith, ==-iff k j)))
  ]

  pub adjust-Distinct : (d : Dict K V) (k : K) (f : V → V) → Distinct d → Distinct (adjust d k f)
  unfolding adjust
  adjust-Distinct d k f h = elim (Option-cases (get d k)) [
    | inl e ↦ rw (e, adjust) h
    | inr (v, e) ↦ rw (e, adjust) (put-Distinct d k (f v) h)
  ]
