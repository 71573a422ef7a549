-- ===== src/Kube/Workers/Exclusion.antt =====
-- At most one worker for each deployment, whatever the order of requests and worker ends.
use zigbee_control.Prelude.{
  ◌≡◌, ◌≢◌, ℕ, ◌+◌, ◌≤◌, ◌<◌, Bool, true, false, none, some, [], ◌∷◌, ◌++◌, arith, string_eq,
  pair_eq, count, count-append, count-remove_first, count-remove_first_ne, remove_first, ==-iff,
  ==-refl, Bool-cases, Option-cases, inl, inr,
}
use zigbee_control.Prelude.Results.{err}
use zigbee_control.Dict.{get, has, is_some, get-put, get-pop}
use zigbee_control.Sse.{Env}
use zigbee_control.Config.{TabConfig, KubernetesConfig}
use zigbee_control.Kube.Errors.{in_progress}
use zigbee_control.TabStatus.{TabStatus, StatusPayload, emit}
use zigbee_control.Kube.Workers.{
  Key, Service, refused, reserve, launch, key_of, request_restart, finish, restarting_status,
}

module _ (env : Env) where
  -- One locked section with what its thread does after it.
  pub data Step (s : Service) : Service → Type 0 where
    reserves :
        {t : Service} (key : Key) (tab_index : ℕ) → reserve key tab_index s ≡ some t → Step s t
    launches :
        (key : Key) (tab_index : ℕ)
        → 0 < count key s.requests
        → Step s (launch env key tab_index s).1
    finishes :
        (key : Key) (tab_index : ℕ) (status : StatusPayload)
        → 0 < count key s.workers
        → Step s (finish env key tab_index status s)

  pub data Reach (s : Service) : Service → Type 0 where
    here : Reach s s
    next : {t u : Service} → Reach s t → Step t u → Reach s u

  abbrev slots : Bool → ℕ
  slots true = 1
  slots false = 0

  -- The requests and workers of a deployment are at most one, and then it is in flight.
  pub record IsExclusive (s : Service) : Type 0 where
    pub single :
        (key : Key)
        → count key s.requests + count key s.workers ≤ slots (is_some (get s.inflight key))

  reserve-IsExclusive :
      (key : Key) (i : ℕ) (s t : Service) → reserve key i s ≡ some t → IsExclusive s → IsExclusive t
  unfolding reserve has
  reserve-IsExclusive key i s t h v = record {
    single = λ k. ground (
      arith,
      v.single k,
      get-put s.inflight key k i,
      count-append k s.requests (key ∷ []),
      ==-iff key k,
    );
  }

  launch-IsExclusive :
      (key : Key) (i : ℕ) (s : Service)
      → 0 < count key s.requests
      → IsExclusive s
      → IsExclusive (launch env key i s).1
  unfolding launch
  launch-IsExclusive key i s h v = elim (Option-cases (emit env i restarting_status s.tabs)) [
    | inl e ↦ rw (e, launch) (record { single = λ k. released k })
    | inr (tabs, e) ↦ rw (e, launch) (record { single = λ k. moved k })
  ]
    where
      released :
          (k : Key)
          → count k (remove_first key s.requests) + count k s.workers
            ≤ slots (is_some (get s.inflight k))
      released k = ground (
        arith,
        v.single k,
        count-remove_first key s.requests,
        count-remove_first_ne key k s.requests,
        ==-iff key k,
      )

      moved :
          (k : Key)
          → count k (remove_first key s.requests) + count k (s.workers ++ key ∷ [])
            ≤ slots (is_some (get s.inflight k))
      moved k = ground (
        arith,
        v.single k,
        count-append k s.workers (key ∷ []),
        count-remove_first key s.requests,
        count-remove_first_ne key k s.requests,
        ==-iff key k,
      )

  finish-IsExclusive :
      (key : Key) (i : ℕ) (status : StatusPayload) (s : Service)
      → 0 < count key s.workers
      → IsExclusive s
      → IsExclusive (finish env key i status s)
  unfolding finish
  finish-IsExclusive key i status s h v = record {
    single = λ k. ground (
      arith,
      v.single k,
      get-pop s.inflight key k,
      count-remove_first key s.workers,
      count-remove_first_ne key k s.workers,
      ==-iff key k,
    );
  }

  Step-IsExclusive : {s t : Service} → Step s t → IsExclusive s → IsExclusive t
  Step-IsExclusive {s} {t} (reserves key i e) v = reserve-IsExclusive key i s t e v
  Step-IsExclusive {s} (launches key i h) v = launch-IsExclusive key i s h v
  Step-IsExclusive {s} (finishes key i status h) v = finish-IsExclusive key i status s h v

  Reach-IsExclusive : {s t : Service} → Reach s t → IsExclusive s → IsExclusive t
  Reach-IsExclusive here v = v
  Reach-IsExclusive (next r st) v = Step-IsExclusive st (Reach-IsExclusive r v)

  abbrev pub fresh : TabStatus → Service
  fresh tabs = record { inflight = []; requests = []; workers = []; tabs = tabs }

  -- From a service without restarts, whatever calls run and in whatever order their locked
  -- sections, starts and ends come: no deployment ever has two workers, and one that has a
  -- worker is in flight, so that a further request for it is refused.
  pub Reach-single_worker :
      (tabs : TabStatus) {s : Service}
      → Reach (fresh tabs) s
      → (key : Key)
      → (count key s.workers ≤ 1) × (0 < count key s.workers → (i : ℕ) → reserve key i s ≡ none)
  unfolding reserve has get
  Reach-single_worker tabs {s} r key =
      let v = Reach-IsExclusive r (record { single = λ k. omega arith }) in
      (ground (arith, v.single key), λ h i. ground (arith, v.single key))

  request_restart_refused :
      (i : ℕ) (tab : TabConfig) (k8s : KubernetesConfig) (s : Service)
      → tab.k8s ≡ some k8s
      → has s.inflight (key_of env k8s) ≡ true
      → request_restart env i tab s ≡ (err (refused (in_progress k8s.namespace k8s.deployment)), s)
  unfolding request_restart
  request_restart_refused i tab k8s s e h = rw (e, request_restart) (rw h)

  inflight-launch : (key : Key) (i : ℕ) (s : Service) → (launch env key i s).1.inflight ≡ s.inflight
  unfolding launch
  inflight-launch key i s = elim (Option-cases (emit env i restarting_status s.tabs)) [
    | inl e ↦ rw (e, launch)
    | inr (tabs, e) ↦ rw (e, launch)
  ]

  inflight-request_restart :
      (i : ℕ) (tab : TabConfig) (k8s : KubernetesConfig) (s : Service)
      → tab.k8s ≡ some k8s
      → has (request_restart env i tab s).1.inflight (key_of env k8s) ≡ true
  unfolding request_restart
  inflight-request_restart i tab k8s s e = elim (Bool-cases (has s.inflight (key_of env k8s))) [
    | inl held ↦ rw (e, request_restart) (rw held held)
    | inr free ↦
        rw (e, request_restart)
          (rw free (rw inflight-launch (unfold has in simp (get-put, ==-refl (key_of env k8s)))))
  ]

  -- After a request for a tab with a deployment, be it accepted, refused or ended by an
  -- IndexError, a further request for that deployment, from whatever tab, is refused and changes
  -- nothing; once a worker for it has ended, the deployment can be reserved again.
  pub request_restart_twice :
      (i j : ℕ) (tab tab' : TabConfig) (k8s : KubernetesConfig) (s : Service)
      → tab.k8s ≡ some k8s
      → tab'.k8s ≡ some k8s
      → let s' = (request_restart env i tab s).1 in
        (request_restart env j tab' s'
          ≡ (err (refused (in_progress k8s.namespace k8s.deployment)), s'))
        × ((status : StatusPayload)
            → reserve (key_of env k8s) j (finish env (key_of env k8s) i status s') ≢ none)
  unfolding finish reserve has
  request_restart_twice i j tab tab' k8s s e e' =
      let s' = (request_restart env i tab s).1 in
      (
        request_restart_refused j tab' k8s s' e' (inflight-request_restart i tab k8s s e),
        λ status h. ground (
          arith,
          get-pop s'.inflight (key_of env k8s) (key_of env k8s),
          ==-refl (key_of env k8s),
        ),
      )
