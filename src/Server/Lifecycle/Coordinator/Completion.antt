-- ===== src/Server/Lifecycle/Coordinator/Completion.antt =====
-- src/glasswyrmd/lifecycle_coordinator.cpp: every accepted operation is completed once.
use glasswyrm.Prelude.{
  ℕ, ◌+◌, ◌≡◌, refl, Bool, true, false, ◌==◌, Option, none, some, is_some, List, [], ◌∷◌, map,
  arith,
}
use glasswyrm.Server.Lifecycle.{
  LifecycleSnapshot, LifecycleOperation, CoordinatorPhase, EnqueueStatus,
}
use glasswyrm.Prelude.Sort.{bit}
use glasswyrm.Server.Lifecycle.Coordinator.{
  Event, completed, LifecycleCallbacks, LifecycleCoordinator, new_coordinator, commit_answered,
  compositor_accepted_in, policy_rejected_in, commit, at_back, at_front, advance, cancel_if, finish,
  settle, complete, refusal, enqueue_all, enqueue_nested, nested_by, Input, after, run, enqueues,
  enqueues_paused, enqueues_priority, enqueues_priority_paused, resumes, accepts_compositor,
  rejects_policy, rejects_compositor, synchronizes, disconnects, accepts_policy, replaces, cancels,
}
use glasswyrm.Server.Lifecycle.Coordinator.Nested.{
  waiting, waiting-append, nested_in, enqueue_all-IsNested,
}
use glasswyrm.Server.Lifecycle.Coordinator.Phases.{
  IsCoherent, after-IsCoherent, new_coordinator-IsCoherent,
}

-- How often a token is reported as completed, active, and waiting.
abbrev pub reported : ℕ → List Event → ℕ
reported k [] = 0
reported k (completed token success ∷ trace) = bit (token == k) + reported k trace
reported k (_ ∷ trace) = reported k trace

abbrev pub held : ℕ → Option LifecycleOperation → ℕ
held k none = 0
held k (some operation) = bit (operation.token == k)

abbrev pub balance : ℕ → LifecycleCoordinator → ℕ
balance k s = reported k s.trace + held k s.active + waiting k s.queue

-- What a call adds: the token of an operation that is not refused.
abbrev if_accepted : ℕ → LifecycleOperation → Option EnqueueStatus → ℕ
if_accepted k operation none = bit (operation.token == k)
if_accepted k operation (some status) = 0

abbrev pub accepted : ℕ → Input → LifecycleCoordinator → ℕ
accepted k (enqueues operation) s = if_accepted k operation (refusal s)
accepted k (enqueues_paused operation) s = if_accepted k operation (refusal s)
accepted k (enqueues_priority operation) s = if_accepted k operation (refusal s)
accepted k (enqueues_priority_paused operation) s = if_accepted k operation (refusal s)
accepted k _ s = 0

waiting-cancel :
    (k client : ℕ) (queue : List LifecycleOperation)
    → waiting k (map (cancel_if client) queue) ≡ waiting k queue
waiting-cancel k client [] = refl
waiting-cancel k client (o ∷ queue) = ground (arith, waiting-cancel k client queue)

-- The callbacks stay, and what is balanced grows by what the completion callback enqueues.
abbrev Balanced : ℕ → ℕ → LifecycleCoordinator → LifecycleCoordinator → Type 0
Balanced k n s t =
    (t.callbacks ≡ s.callbacks) × (balance k t + nested_in k s.trace ≡ n + nested_in k t.trace)

enqueue_all-reported :
    (k : ℕ) (operations : List LifecycleOperation) (s : LifecycleCoordinator)
    → reported k (enqueue_all operations s).trace ≡ reported k s.trace
unfolding enqueue_all
enqueue_all-reported k [] s = refl
enqueue_all-reported k (operation ∷ operations) s =
    ground (arith, enqueue_all-reported k operations (enqueue_nested operation s))

advance-balance :
    (k : ℕ) (finishing : Bool) (queue : List LifecycleOperation) (s : LifecycleCoordinator)
    → is_some s.callbacks.complete ≡ true
    → s.active ≡ none
    → Balanced k (reported k s.trace + waiting k queue) s (advance finishing queue s).0
unfolding advance
advance-balance k finishing [] s c a = ground arith
advance-balance k finishing (operation ∷ queue) s c a = ground (
  arith,
  advance-balance k true queue (settle operation.token false s),
  advance-balance k true queue (complete operation.token false s),
)

finish-balance :
    (k : ℕ) (success : Bool) (operation : LifecycleOperation) (s : LifecycleCoordinator)
    → is_some s.callbacks.complete ≡ true
    → Balanced k
        (reported k s.trace + bit (operation.token == k) + waiting k s.queue)
        s
        (finish success (some operation) s)
finish-balance k false operation s c =
    ground (arith, advance-balance k true s.queue (settle operation.token false s))
finish-balance k true operation s c =
    let operations = nested_by s.callbacks.complete operation.token s in
    let t = complete operation.token true s in
    let e = enqueue_all-IsNested operations t in
    let n = settle operation.token true s in
    ground (
      arith,
      e.same_callbacks,
      e.counted k,
      enqueue_all-reported k operations t,
      advance-balance k true n.queue n,
    )

commit_answered-balance :
    (k : ℕ) (operation : LifecycleOperation) (r : LifecycleCoordinator × Bool)
    → is_some r.0.callbacks.complete ≡ true
    → r.0.active ≡ some operation
    → Balanced k (balance k r.0) r.0 (commit_answered operation r).0
commit_answered-balance k operation (s, true) c a =
    ground (arith, finish-balance k true operation (record s { committed = s.evaluated }) c)
commit_answered-balance k operation (s, false) c a = ground arith

compositor_accepted-balance :
    (k : ℕ) (phase : CoordinatorPhase) (active : Option LifecycleOperation)
    (s : LifecycleCoordinator)
    → is_some s.callbacks.complete ≡ true
    → s.active ≡ active
    → Balanced k (balance k s) s (compositor_accepted_in phase active s).0
compositor_accepted-balance k CoordinatorPhase.awaiting_compositor (some operation) s c a =
    ground (arith, commit_answered-balance k operation (commit s.evaluated s))
compositor_accepted-balance k CoordinatorPhase.rolling_back_compositor (some operation) s c a =
    ground (arith, finish-balance k false operation s c)
compositor_accepted-balance k CoordinatorPhase.awaiting_compositor none s c a = (refl, refl)
compositor_accepted-balance k CoordinatorPhase.rolling_back_compositor none s c a = (refl, refl)
compositor_accepted-balance k CoordinatorPhase.idle active s c a = (refl, refl)
compositor_accepted-balance k CoordinatorPhase.awaiting_policy active s c a = (refl, refl)
compositor_accepted-balance k CoordinatorPhase.rolling_back_policy active s c a = (refl, refl)
compositor_accepted-balance k CoordinatorPhase.waiting_for_peer active s c a = (refl, refl)
compositor_accepted-balance k CoordinatorPhase.stopped active s c a = (refl, refl)

policy_rejected-balance :
    (k : ℕ) (phase : CoordinatorPhase) (active : Option LifecycleOperation)
    (s : LifecycleCoordinator)
    → is_some s.callbacks.complete ≡ true
    → s.active ≡ active
    → Balanced k (balance k s) s (policy_rejected_in phase active s).0
policy_rejected-balance k CoordinatorPhase.awaiting_policy (some operation) s c a =
    ground (arith, finish-balance k false operation s c)
policy_rejected-balance k CoordinatorPhase.awaiting_policy none s c a = (refl, refl)
policy_rejected-balance k CoordinatorPhase.idle active s c a = (refl, refl)
policy_rejected-balance k CoordinatorPhase.awaiting_compositor active s c a = (refl, refl)
policy_rejected-balance k CoordinatorPhase.rolling_back_policy active s c a = (refl, refl)
policy_rejected-balance k CoordinatorPhase.rolling_back_compositor active s c a = (refl, refl)
policy_rejected-balance k CoordinatorPhase.waiting_for_peer active s c a = (refl, refl)
policy_rejected-balance k CoordinatorPhase.stopped active s c a = (refl, refl)

after-balance :
    (k : ℕ) (c : Input) (s : LifecycleCoordinator)
    → is_some s.callbacks.complete ≡ true
    → IsCoherent s
    → Balanced k (balance k s + accepted k c s) s (after c s)
unfolding after
after-balance k (enqueues operation) s h v = ground (
  arith,
  waiting-append k s.queue operation,
  advance-balance k false (at_back operation s).queue (at_back operation s),
)
after-balance k (enqueues_paused operation) s h v =
    ground (arith, waiting-append k s.queue operation)
after-balance k (enqueues_priority operation) s h v =
    ground (arith, advance-balance k false (at_front operation s).queue (at_front operation s))
after-balance k (enqueues_priority_paused operation) s h v = ground arith
after-balance k resumes s h v = ground (arith, advance-balance k false s.queue s)
after-balance k accepts_compositor s h v =
    ground (arith, compositor_accepted-balance k s.phase s.active s)
after-balance k rejects_policy s h v = ground (arith, policy_rejected-balance k s.phase s.active s)
after-balance k rejects_compositor s h v = ground arith
after-balance k synchronizes s h v = ground arith
after-balance k disconnects s h v = ground arith
after-balance k (accepts_policy evaluated) s h v = ground arith
after-balance k (replaces committed) s h v = ground arith
after-balance k (cancels client) s h v = ground (arith, waiting-cancel k client s.queue)

-- How many operations with a token are accepted along calls.
abbrev pub accepted_in : ℕ → List Input → LifecycleCoordinator → ℕ
accepted_in k [] s = 0
accepted_in k (c ∷ cs) s = accepted k c s + accepted_in k cs (after c s)

run-balance :
    (k : ℕ) (cs : List Input) (s : LifecycleCoordinator)
    → is_some s.callbacks.complete ≡ true
    → IsCoherent s
    → Balanced k (balance k s + accepted_in k cs s) s (run cs s)
run-balance k [] s h v = ground arith
run-balance k (c ∷ cs) s h v =
    let b = after-balance k c s h v in
    ground (arith, run-balance k cs (after c s), after-IsCoherent c s v)

-- After any calls of a new coordinator that has a completion callback, whatever the callbacks answer
-- and whatever operations the completion callback enqueues before it returns from a report of success,
-- as long as no callback calls the coordinator back in another way: each accepted operation has been
-- reported as completed once, or is still active or waiting, since the reports, the active and the
-- waiting operations with a token are as many as were accepted by the calls and from within the
-- callback.
pub completed_once :
    (k : ℕ) (cs : List Input) (committed : LifecycleSnapshot) (maximum : ℕ)
    (callbacks : LifecycleCallbacks)
    → is_some callbacks.complete ≡ true
    → reported k (run cs (new_coordinator committed maximum callbacks)).trace
        + held k (run cs (new_coordinator committed maximum callbacks)).active
        + waiting k (run cs (new_coordinator committed maximum callbacks)).queue
      ≡ accepted_in k cs (new_coordinator committed maximum callbacks)
        + nested_in k (run cs (new_coordinator committed maximum callbacks)).trace
completed_once k cs committed maximum callbacks h = ground (
  arith,
  run-balance k cs (new_coordinator committed maximum callbacks) h
      (new_coordinator-IsCoherent committed maximum callbacks),
)
