-- ===== src/Server/Lifecycle/Coordinator/Rollback.antt =====
-- src/glasswyrmd/lifecycle_coordinator.cpp: an operation that the compositor rejects.
use glasswyrm.Prelude.{◌≡◌, refl, Bool, true, false, some, List, [], ◌∷◌, arith}
use glasswyrm.Server.Lifecycle.{LifecycleSnapshot, LifecycleOperation, CoordinatorPhase}
use glasswyrm.Server.Lifecycle.Coordinator.{
  Event, policy_sent, compositor_sent, rollback_prepared, LifecycleCoordinator, advance, finish,
  settle, complete, compositor_rejected, policy_accepted, compositor_accepted,
}

advance-committed :
    (finishing : Bool) (queue : List LifecycleOperation) (s : LifecycleCoordinator)
    → (advance finishing queue s).0.committed ≡ s.committed
unfolding advance
advance-committed finishing [] s = refl
advance-committed finishing (operation ∷ queue) s = ground (
  arith,
  advance-committed true queue (settle operation.token false s),
  advance-committed true queue (complete operation.token false s),
)

-- The events of a rollback: it is prepared, and the committed snapshot sent to both peers.
abbrev pub rolled_back : LifecycleCoordinator → LifecycleCoordinator
rolled_back s = record s {
  phase = CoordinatorPhase.rolling_back_compositor;
  trace =
      compositor_sent s.committed true
      ∷ policy_sent s.committed true
      ∷ rollback_prepared true
      ∷ s.trace;
}

-- Where the callbacks to prepare and to send answer yes to these calls, an operation that the
-- compositor rejects is rolled back when both peers accept: the rollback is prepared, the committed
-- snapshot is sent to the window manager and to the compositor, then the operation is finished
-- without success; the committed snapshot stays, whatever the window manager evaluated.
pub rejected_is_rolled_back :
    (s : LifecycleCoordinator) (operation : LifecycleOperation) (evaluated : LifecycleSnapshot)
    (prepare : List Event → Bool) (to_policy to_compositor : List Event → LifecycleSnapshot → Bool)
    → s.phase ≡ CoordinatorPhase.awaiting_compositor
    → s.active ≡ some operation
    → s.callbacks.prepare_rollback ≡ some prepare
    → s.callbacks.send_policy ≡ some to_policy
    → s.callbacks.send_compositor ≡ some to_compositor
    → prepare s.trace ≡ true
    → to_policy (rollback_prepared true ∷ s.trace) s.committed ≡ true
    → to_compositor (policy_sent s.committed true ∷ rollback_prepared true ∷ s.trace) s.committed
      ≡ true
    → ((compositor_accepted (policy_accepted evaluated (compositor_rejected s).0).0).0
        ≡ finish false (some operation) (rolled_back s))
      × ((compositor_accepted (policy_accepted evaluated (compositor_rejected s).0).0).0.committed
          ≡ s.committed)
unfolding compositor_accepted policy_accepted compositor_rejected
rejected_is_rolled_back s operation evaluated prepare to_policy to_compositor p a f g h x y z =
    ground (arith, advance-committed true s.queue (settle operation.token false (rolled_back s)))
