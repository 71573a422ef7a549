-- ===== src/Oidc/Discovery/Retry.antt =====
-- How often the discovery asks, and which answer it takes.
use zigbee_control.Prelude.{◌≡◌, refl, ap, ◌↔◌, ◌⊎◌, inl, inr, ℕ, zero, suc, ◌≤◌, String, arith}
use zigbee_control.Prelude.Results.{Result, ok, err, ok-injective}
use zigbee_control.Oidc.{OidcEndpoints}
use zigbee_control.Oidc.Discovery.{
  DiscoveryAnswer, Attempt, found, caught, uncaught, attempt, discover_from, requests_from,
  discover_endpoints, discover_step, count_step,
}

abbrev pub IsCaught : Attempt → Type 0
IsCaught a = (message : String) × (a ≡ caught message)

count_step_bounded :
    (a : Attempt) (further rest : ℕ)
    → (1 ≤ rest) × (rest ≤ suc further)
    → (1 ≤ count_step a rest) × (count_step a rest ≤ suc (suc further))
count_step_bounded (found e) further rest h = ground arith
count_step_bounded (caught message) further rest h = ground arith
count_step_bounded (uncaught message) further rest h = ground arith

last_step_ok :
    (a : Attempt) (e : OidcEndpoints) → discover_step zero a (err "") ≡ ok e → a ≡ found e
last_step_ok (found d) e h = ap found (ok-injective refl h)
last_step_ok (caught message) e h = cc
last_step_ok (uncaught message) e h = cc

discover_step_ok :
    (further : ℕ) (a : Attempt) (rest : Result String OidcEndpoints) (e : OidcEndpoints)
    → discover_step (suc further) a rest ≡ ok e
    → (a ≡ found e) ⊎ (IsCaught a × (rest ≡ ok e))
discover_step_ok further (found d) rest e h = inl (ap found (ok-injective refl h))
discover_step_ok further (caught message) rest e h = inr ((message, refl), h)
discover_step_ok further (uncaught message) rest e h = cc

module _ (answers : (number : ℕ) → DiscoveryAnswer) where
  -- The answer that ends the search: the first that is not caught, within the attempts allowed.
  pub data FirstFound (e : OidcEndpoints) : (further number : ℕ) → Type 0 where
    here : {further number : ℕ} → attempt (answers number) ≡ found e → FirstFound e further number
    later :
        {further number : ℕ}
        → IsCaught (attempt (answers number))
        → FirstFound e further (suc number)
        → FirstFound e (suc further) number

  requests_from_bounded :
      (further number : ℕ)
      → (1 ≤ requests_from answers further number)
        × (requests_from answers further number ≤ suc further)
  unfolding requests_from
  requests_from_bounded zero number = ground arith
  requests_from_bounded (suc further) number =
      count_step_bounded (attempt (answers number)) further _
        (requests_from_bounded further (suc number))

  discover_from-FirstFound :
      (further number : ℕ) (e : OidcEndpoints)
      → discover_from answers further number ≡ ok e
      → FirstFound e further number
  unfolding discover_from
  discover_from-FirstFound zero number e h = here (last_step_ok _ e h)
  discover_from-FirstFound (suc further) number e h = elim (discover_step_ok further _ _ e h) [
    | inl now ↦ here now
    | inr (c, rest) ↦ later c (discover_from-FirstFound further (suc number) e rest)
  ]

  FirstFound-discover_from :
      (e : OidcEndpoints) {further number : ℕ}
      → FirstFound e further number
      → discover_from answers further number ≡ ok e
  unfolding discover_from
  FirstFound-discover_from e {further = zero} (here h) = simp h refl
  FirstFound-discover_from e {further = suc further} (here h) = simp h refl
  FirstFound-discover_from e {further = suc further} (later (message, c) rest) =
      simp c (FirstFound-discover_from e rest)

  -- The discovery makes one, two or three requests. It returns endpoints exactly if these are in
  -- the document of one of the first three answers, and every answer before it failed by an HTTP
  -- error, by malformed JSON or by a document that misses an endpoint.
  pub discover_endpoints_exact :
      (1 ≤ requests_from answers 2 0)
      × (requests_from answers 2 0 ≤ 3)
      × ((e : OidcEndpoints) → (discover_endpoints answers ≡ ok e) ↔ FirstFound e 2 0)
  unfolding discover_endpoints
  discover_endpoints_exact =
      let (low, high) = requests_from_bounded 2 0 in
      (low, high, λ e. (discover_from-FirstFound 2 0 e, FirstFound-discover_from e))
