-- ===== src/Tasks/Cleanup.antt =====
-- `_cleanup_completed_tasks`: exactly the expired tasks go.
use zigbee_control.Prelude.{
  ◌≡◌, refl, ℕ, String, Bool, false, ◌&&◌, Option, none, some, List, [], ◌∷◌, map, if◌then◌else◌,
  arith, ==-iff, string_eq, nat_eq, ◌==◌, Bool-cases, Option-cases, inl, inr, select, ◌||◌,
}
use zigbee_control.Dict.{Dict, get, get-pop, Distinct}
use zigbee_control.Tasks.{
  TaskService, TaskInfo, is_expired, is_removable, get_task_status, remove_completed_task,
  remove_each, cleanup_completed_tasks,
}

abbrev pub listed : String → List String → Bool
listed k [] = false
listed k (x ∷ xs) = x == k || listed k xs

get-remove :
    (id : String) (s : TaskService) (k : String)
    → get (remove_completed_task id s).1.tasks k
      ≡ (if id == k && is_removable (get s.tasks k) then none else get s.tasks k)
unfolding remove_completed_task
get-remove id s k = elim (Bool-cases (is_removable (get s.tasks id))) [
  | inl old ↦ rw (old, remove_completed_task) (simp get-pop (ground (arith, ==-iff id k, old)))
  | inr kept ↦ rw (kept, remove_completed_task) (ground (arith, ==-iff id k, kept))
]

-- After a pass over a list of ids, a listed task with a final status is gone, and every other one
-- is as before.
remove_each_lem :
    (ids : List String) (s : TaskService) (k : String)
    → get (remove_each ids s).tasks k
      ≡ (if listed k ids && is_removable (get s.tasks k) then none else get s.tasks k)
unfolding remove_each
remove_each_lem [] s k = refl
remove_each_lem (id ∷ ids) s k =
    rw (remove_each_lem ids (remove_completed_task id s).1 k)
      (simp get-remove (ground (arith, ==-iff id k)))

abbrev pub is_due : (interval now : ℕ) → Option TaskInfo → Bool
is_due interval now none = false
is_due interval now (some info) = is_expired interval now info

expired_listed :
    (interval now : ℕ) (d : Dict String TaskInfo) (k : String)
    → Distinct d
    → listed k (map (λ p. p.0) (select (λ p. is_expired interval now p.1) d))
      ≡ is_due interval now (get d k)
unfolding get
expired_listed interval now [] k v = refl
expired_listed interval now ((j, info) ∷ d) k v =
    ground (arith, ==-iff j k, expired_listed interval now d k)

-- With each id once in the table, one pass of the clean-up removes exactly the tasks whose status
-- is final and whose end time is at least the interval ago, and keeps every other as it is.
pub cleanup_exact :
    (now : ℕ) (s : TaskService) (k : String)
    → Distinct s.tasks
    → get_task_status k (cleanup_completed_tasks now s)
      ≡ (if is_due s.cleanup_interval now (get s.tasks k) then none else get s.tasks k)
unfolding cleanup_completed_tasks get_task_status
cleanup_exact now s k v =
    rw (remove_each_lem, expired_listed s.cleanup_interval now s.tasks k v)
      (elim (Option-cases (get s.tasks k)) [
        | inl e ↦ rw e refl
        | inr (info, e) ↦ rw e (ground arith)
      ])
