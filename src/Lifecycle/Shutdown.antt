-- ===== src/Lifecycle/Shutdown.antt =====
-- The shutdown happens once, in order, and within its timeout.
use zigbee_control.Prelude.{
  ◌≡◌, refl, ℕ, ◌-◌, ◌≤◌, String, false, List, [], ◌∷◌, ◌++◌, map, arith, select, ◌==◌, nat_eq,
  replicate, count, ==-iff,
}
use mathlib.Core.List.{append_assoc}
use zigbee_control.Dict.{Dict}
use zigbee_control.Lifecycle.{
  LifecycleEvent, startup, prepare_shutdown, shutdown, after_shutdown, LifecycleCoordinator,
  raise_lifecycle_event, fire_startup, WaitAnswer, WaitOutcome, wait_one, wait_each, nothing_waited,
  shut_down,
}

-- The events that a callback was called with, in order.
abbrev pub heard : ℕ → List (ℕ × LifecycleEvent) → List LifecycleEvent
heard callback calls = map (λ p. p.1) (select (λ p. p.0 == callback) calls)

heard-append :
    (k : ℕ) (xs ys : List (ℕ × LifecycleEvent)) → heard k (xs ++ ys) ≡ heard k xs ++ heard k ys
heard-append k [] ys = refl
heard-append k ((c, event) ∷ xs) ys = ground (arith, heard-append k xs ys)

heard-map :
    (k : ℕ) (event : LifecycleEvent) (callbacks : List ℕ)
    → heard k (map (λ c. (c, event)) callbacks) ≡ replicate (count k callbacks) event
heard-map k event [] = refl
heard-map k event (c ∷ callbacks) =
    ground (arith, heard-map k event callbacks, ==-iff c k, ==-iff k c)

module _ (waiter : ℕ → ℕ → WaitAnswer × ℕ) where
  -- A callback that is registered once hears of the first shutdown three times, in this order:
  -- PREPARE_SHUTDOWN, SHUTDOWN, AFTER_SHUTDOWN, whatever the waiters and the other callbacks do.
  -- A second shutdown, by a signal or by a call, changes nothing.
  pub shut_down_order :
      (c : LifecycleCoordinator) (callback : ℕ)
      → c.shutting_down ≡ false
      → count callback c.lifecycle_notifications ≡ 1
      → (heard callback (shut_down waiter c).raised
          ≡ heard callback c.raised ++ prepare_shutdown ∷ shutdown ∷ after_shutdown ∷ [])
        × (shut_down waiter (shut_down waiter c) ≡ shut_down waiter c)
  unfolding shut_down raise_lifecycle_event
  shut_down_order c callback e once = (
    rw (e, shut_down) (simp (heard-append, heard-map, once) (simp append_assoc refl)),
    rw (e, shut_down) refl,
  )

  wait_each_bounded :
      (timeout : ℕ) (waiters : Dict String ℕ) (out : WaitOutcome waiter)
      → ((handler remaining : ℕ) → (waiter handler remaining).1 ≤ remaining)
      → out.elapsed ≤ timeout
      → (wait_each waiter timeout waiters out).elapsed ≤ timeout
  unfolding wait_each
  wait_each_bounded timeout [] out h e = e
  wait_each_bounded timeout ((name, handler) ∷ rest) out h e = ground (
    arith,
    h handler (timeout - out.elapsed),
    wait_each_bounded timeout rest
        (wait_one waiter (waiter handler (timeout - out.elapsed)) handler (timeout - out.elapsed)
          out)
        h,
  )

  -- When every waiter keeps to the time it is given, the whole wait takes no longer than the
  -- timeout of the graceful shutdown, however many waiters there are.
  pub shutdown_wait_bounded :
      (c : LifecycleCoordinator)
      (in_time : (handler remaining : ℕ) → (waiter handler remaining).1 ≤ remaining)
      → (wait_each waiter c.graceful_shutdown_timeout c.shutdown_waiters
          (nothing_waited waiter)).elapsed
        ≤ c.graceful_shutdown_timeout
  shutdown_wait_bounded c in_time =
      wait_each_bounded c.graceful_shutdown_timeout c.shutdown_waiters (nothing_waited waiter)
        in_time (ground arith)

-- STARTUP is raised once: a second call of `fire_startup` changes nothing, and a callback that is
-- registered once hears it once.
pub fire_startup_once :
    (c : LifecycleCoordinator) (callback : ℕ)
    → c.started ≡ false
    → count callback c.lifecycle_notifications ≡ 1
    → (fire_startup (fire_startup c) ≡ fire_startup c)
      × (heard callback (fire_startup c).raised ≡ heard callback c.raised ++ startup ∷ [])
unfolding fire_startup raise_lifecycle_event
fire_startup_once c callback e once =
    rw (e, fire_startup) (refl, simp (heard-append, heard-map, once) refl)
