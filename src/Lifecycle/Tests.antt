-- ===== src/Lifecycle/Tests.antt =====
-- The theorems about the lifecycle at a concrete coordinator.
use zigbee_control.Prelude.{◌≡◌, ◌≤◌, refl, ℕ, false, [], ◌∷◌, arith}
use zigbee_control.Lifecycle.{
  LifecycleCoordinator, prepare_shutdown, shutdown, after_shutdown, WaitAnswer, not_ready,
  wait_each, nothing_waited, shut_down,
}
use zigbee_control.Lifecycle.Shutdown.{heard, shut_down_order, shutdown_wait_bounded}

-- A waiter that uses up its time.
abbrev slow : ℕ → ℕ → WaitAnswer × ℕ
slow handler remaining = (not_ready, remaining)

abbrev coordinator : LifecycleCoordinator
coordinator = record {
  graceful_shutdown_timeout = 600;
  shutting_down = false;
  started = false;
  lifecycle_notifications = 7 ∷ 8 ∷ [];
  shutdown_waiters = ("tasks", 1) ∷ ("sse", 2) ∷ [];
  raised = [];
  waited = [];
}

shut_down_order_example :
    (heard 8 (shut_down slow coordinator).raised
      ≡ prepare_shutdown ∷ shutdown ∷ after_shutdown ∷ [])
    × (shut_down slow (shut_down slow coordinator) ≡ shut_down slow coordinator)
shut_down_order_example = shut_down_order slow coordinator 8 refl refl

shutdown_wait_bounded_example :
    (wait_each slow 600 coordinator.shutdown_waiters (nothing_waited slow)).elapsed ≤ 600
shutdown_wait_bounded_example =
    shutdown_wait_bounded slow coordinator (λ handler remaining. omega arith)
