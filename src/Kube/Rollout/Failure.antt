-- ===== src/Kube/Rollout/Failure.antt =====
-- What `_detect_rollout_failure` reports.
use zigbee_control.Prelude.{
  ◌≡◌, refl, ap, String, Bool, true, false, Option, none, some, List, [], ◌∷◌, ◌++◌, Bool-cases,
  inl, inr, ◌⊎◌, All,
}
use zigbee_control.Prelude.Int.{ℤ}
use zigbee_control.Kube.Value.{Value, get_field, is_null, iterate_or_empty, is_hashable}
use zigbee_control.Kube.Rollout.{is_failure, message_text, first_failure, detect_rollout_failure}

module _ (parse_int : String → Option ℤ) (target : ℤ) where
  abbrev pub NotFailed : Value → Type 0
  NotFailed c = is_failure parse_int target c ≡ false

  abbrev pub is_typed : Value → Bool
  is_typed c = is_hashable (get_field c ("type" ∷ []))

  -- The first condition of a list that reports a failure, with the value reported for it.
  pub record IsFirst (cs : List Value) (reported : Option (Option Value)) : Type 0 where
    pub before : List Value
    pub failed : Value
    pub after : List Value
    pub splits : cs ≡ before ++ failed ∷ after
    pub quiet : All NotFailed before
    pub fails : is_failure parse_int target failed ≡ true
    pub reports :
        reported
        ≡ some (
            some
              (message_text (get_field failed ("message" ∷ [])) (get_field failed ("reason" ∷ []))))

  first_failure-IsFirst :
      (cs : List Value)
      → All (λ c. is_typed c ≡ true) cs
      → (All NotFailed cs × (first_failure parse_int target cs ≡ some none))
        ⊎ IsFirst cs (first_failure parse_int target cs)
  unfolding first_failure
  first_failure-IsFirst [] h = inl (tt, refl)
  first_failure-IsFirst (c ∷ cs) h = elim (Bool-cases (is_failure parse_int target c)) [
    | inl fails ↦
        rw (h.0, fails)
          (inr (record {
            before = [];
            failed = c;
            after = cs;
            splits = refl;
            quiet = tt;
            fails = fails;
            reports = refl;
          }))
    | inr quiet ↦
        rw (h.0, quiet)
          (elim (first_failure-IsFirst cs h.1) [
            | inl (none_failed, e) ↦ inl ((refl, none_failed), e)
            | inr first ↦ inr (record {
              before = c ∷ first.before;
              failed = first.failed;
              after = first.after;
              splits = ap (◌∷◌ c) first.splits;
              quiet = (quiet, first.quiet);
              fails = first.fails;
              reports = first.reports;
            })
          ])
  ]

  -- If the conditions are a list of which each has a hashable type, the report is about the first
  -- condition that is Progressing, has the status false and is not older than the target: its
  -- message, or else its reason. Without such a condition nothing is reported.
  pub detect_rollout_failure_exact :
      (obj : Value) (cs : List Value)
      → is_null (get_field obj ("status" ∷ [])) ≡ false
      → iterate_or_empty (get_field (get_field obj ("status" ∷ [])) ("conditions" ∷ [])) ≡ some cs
      → All (λ c. is_typed c ≡ true) cs
      → (All NotFailed cs × (detect_rollout_failure parse_int obj target ≡ some none))
        ⊎ IsFirst cs (detect_rollout_failure parse_int obj target)
  unfolding detect_rollout_failure
  detect_rollout_failure_exact obj cs present listed typed =
      rw (present, listed) (first_failure-IsFirst cs typed)
