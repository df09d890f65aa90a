-- ===== src/Server/Lifecycle/Coordinator/Nested.antt =====
-- src/glasswyrmd/lifecycle_coordinator.cpp, `finish`: what the operations change that the completion
-- callback enqueues before it returns.
use glasswyrm.Prelude.{
  ◌∙◌, ℕ, ◌+◌, ◌≤◌, ◌≡◌, refl, ◌==◌, some, List, [], ◌∷◌, ◌++◌, arith, length-append,
}
use glasswyrm.Prelude.Sort.{bit}
use glasswyrm.Server.Lifecycle.{LifecycleOperation, EnqueueStatus}
use glasswyrm.Server.Lifecycle.Coordinator.{
  Event, nested, LifecycleCoordinator, enqueue, enqueue_paused, enqueue_nested, enqueue_all,
  pending_count,
}

-- While an operation is active, `enqueue` does what `enqueue_paused` does.
enqueue_active :
    (operation active : LifecycleOperation) (s : LifecycleCoordinator)
    → s.active ≡ some active
    → enqueue operation s ≡ enqueue_paused operation s
unfolding enqueue
enqueue_active operation active s a = ground arith

-- How many operations with a token wait.
abbrev pub waiting : ℕ → List LifecycleOperation → ℕ
waiting k [] = 0
waiting k (operation ∷ queue) = bit (operation.token == k) + waiting k queue

pub waiting-append :
    (k : ℕ) (queue : List LifecycleOperation) (operation : LifecycleOperation)
    → waiting k (queue ++ (operation ∷ [])) ≡ waiting k queue + bit (operation.token == k)
waiting-append k [] operation = ground arith
waiting-append k (o ∷ queue) operation = ground (arith, waiting-append k queue operation)

-- How many operations with a token the completion callback enqueued and were not refused.
abbrev pub nested_in : ℕ → List Event → ℕ
nested_in k [] = 0
nested_in k (nested operation EnqueueStatus.queued ∷ trace) =
    bit (operation.token == k) + nested_in k trace
nested_in k (_ ∷ trace) = nested_in k trace

-- Only the queue and the trace change, and the limit is kept.
pub record IsNested (s t : LifecycleCoordinator) : Type 0 where
  pub same_callbacks : t.callbacks ≡ s.callbacks
  pub same_committed : t.committed ≡ s.committed
  pub same_active : t.active ≡ s.active
  pub same_maximum : t.maximum_pending ≡ s.maximum_pending
  pub within : pending_count s ≤ s.maximum_pending → pending_count t ≤ t.maximum_pending
  pub counted :
      (k : ℕ) → waiting k t.queue + nested_in k s.trace ≡ waiting k s.queue + nested_in k t.trace

enqueue_nested-IsNested :
    (operation : LifecycleOperation) (s : LifecycleCoordinator)
    → IsNested s (enqueue_nested operation s)
enqueue_nested-IsNested operation s = record {
  same_callbacks = ground arith;
  same_committed = ground arith;
  same_active = ground arith;
  same_maximum = ground arith;
  within = λ h. ground (arith, length-append s.queue (operation ∷ []));
  counted = λ k. ground (arith, waiting-append k s.queue operation);
}

pub enqueue_all-IsNested :
    (operations : List LifecycleOperation) (s : LifecycleCoordinator)
    → IsNested s (enqueue_all operations s)
unfolding enqueue_all
enqueue_all-IsNested [] s = record {
  same_callbacks = refl;
  same_committed = refl;
  same_active = refl;
  same_maximum = refl;
  within = λ h. h;
  counted = λ k. refl;
}
enqueue_all-IsNested (operation ∷ operations) s =
    let a = enqueue_nested-IsNested operation s in
    let b = enqueue_all-IsNested operations (enqueue_nested operation s) in
    record {
      same_callbacks = b.same_callbacks ∙ a.same_callbacks;
      same_committed = b.same_committed ∙ a.same_committed;
      same_active = b.same_active ∙ a.same_active;
      same_maximum = b.same_maximum ∙ a.same_maximum;
      within = λ h. b.within (a.within h);
      counted = λ k. ground (arith, a.counted k, b.counted k);
    }
