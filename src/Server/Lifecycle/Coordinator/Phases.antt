-- ===== src/Server/Lifecycle/Coordinator/Phases.antt =====
-- src/glasswyrmd/lifecycle_coordinator.cpp: in which phase an operation is active, and how many wait.
use glasswyrm.Prelude.{
  ℕ, ◌≤◌, ◌≡◌, refl, Bool, true, false, Option, none, some, is_some, List, [], ◌∷◌, map, length,
  arith, length-append,
}
use glasswyrm.Server.Lifecycle.{LifecycleSnapshot, LifecycleOperation, CoordinatorPhase}
use glasswyrm.Server.Lifecycle.Coordinator.Nested.{enqueue_all-IsNested}
use glasswyrm.Server.Lifecycle.Coordinator.{
  LifecycleCoordinator, LifecycleCallbacks, new_coordinator, commit_answered,
  compositor_accepted_in, policy_rejected_in, commit, at_back, at_front, advance, start_next,
  cancel_if, finish, settle, complete, nested_by, pending_count, Input, after, enqueues,
  enqueues_paused, enqueues_priority, enqueues_priority_paused, resumes, accepts_compositor,
  rejects_policy, rejects_compositor, synchronizes, disconnects, accepts_policy, replaces, cancels,
}

-- A phase in which an answer is awaited.
abbrev pub awaits : CoordinatorPhase → Bool
awaits CoordinatorPhase.awaiting_policy = true
awaits CoordinatorPhase.awaiting_compositor = true
awaits CoordinatorPhase.rolling_back_policy = true
awaits CoordinatorPhase.rolling_back_compositor = true
awaits _ = false

abbrev pub FitsPhase : CoordinatorPhase → CoordinatorPhase → Bool → Type 0
FitsPhase CoordinatorPhase.idle resume_phase active = active ≡ false
FitsPhase CoordinatorPhase.stopped resume_phase active = Unit {0}
FitsPhase CoordinatorPhase.waiting_for_peer resume_phase active =
    (awaits resume_phase ≡ true) × (active ≡ true)
FitsPhase _ resume_phase active = active ≡ true

-- While idle no operation is active; while an answer is awaited, or the peer, one is; and the active
-- and the waiting operations are within the limit.
pub record IsCoherent (s : LifecycleCoordinator) : Type 0 where
  pub fits : FitsPhase s.phase s.resume_phase (is_some s.active)
  pub bounded : pending_count s ≤ s.maximum_pending

advance-IsCoherent :
    (finishing : Bool) (queue : List LifecycleOperation) (s : LifecycleCoordinator)
    → s.phase ≡ CoordinatorPhase.idle
    → s.active ≡ none
    → length queue ≤ s.maximum_pending
    → IsCoherent (advance finishing queue s).0
unfolding advance
advance-IsCoherent finishing [] s p a h = ground arith
advance-IsCoherent finishing (operation ∷ queue) s p a h = ground (
  arith,
  advance-IsCoherent true queue (settle operation.token false s),
  advance-IsCoherent true queue (complete operation.token false s),
)

-- The report of the active operation keeps the limit, and leaves room for it.
settle_within :
    (success : Bool) (operation : LifecycleOperation) (s : LifecycleCoordinator)
    → is_some s.active ≡ true
    → pending_count s ≤ s.maximum_pending
    → length (settle operation.token success s).queue
      ≤ (settle operation.token success s).maximum_pending
settle_within false operation s a h = ground arith
settle_within true operation s a h =
    let e =
      enqueue_all-IsNested (nested_by s.callbacks.complete operation.token s)
        (complete operation.token true s) in
    ground (arith, e.within, e.same_maximum)

finish-IsCoherent :
    (success : Bool) (operation : LifecycleOperation) (s : LifecycleCoordinator)
    → is_some s.active ≡ true
    → pending_count s ≤ s.maximum_pending
    → IsCoherent (finish success (some operation) s)
finish-IsCoherent success operation s a h =
    let t = settle operation.token success s in
    advance-IsCoherent true t.queue t refl refl (settle_within success operation s a h)

start_next-IsCoherent :
    (s : LifecycleCoordinator)
    → s.phase ≡ CoordinatorPhase.idle
    → s.active ≡ none
    → length s.queue ≤ s.maximum_pending
    → IsCoherent (start_next s).0
start_next-IsCoherent s p a h = ground (arith, advance-IsCoherent false s.queue s p a h)

length-map {ℓ κ} :
    {A : Type ℓ} {B : Type κ} (f : A → B) (xs : List A) → length (map f xs) ≡ length xs
length-map f [] = refl
length-map f (x ∷ xs) = ground (arith, length-map f xs)

commit_answered-IsCoherent :
    (operation : LifecycleOperation) (r : LifecycleCoordinator × Bool)
    → is_some r.0.active ≡ true
    → pending_count r.0 ≤ r.0.maximum_pending
    → IsCoherent (commit_answered operation r).0
commit_answered-IsCoherent operation (s, true) a h =
    finish-IsCoherent true operation (record s { committed = s.evaluated }) a h
commit_answered-IsCoherent operation (s, false) a h = ground arith

compositor_accepted-IsCoherent :
    (phase : CoordinatorPhase) (active : Option LifecycleOperation) (s : LifecycleCoordinator)
    → phase ≡ s.phase
    → active ≡ s.active
    → IsCoherent s
    → IsCoherent (compositor_accepted_in phase active s).0
compositor_accepted-IsCoherent CoordinatorPhase.awaiting_compositor (some operation) s p a v =
    ground (arith, commit_answered-IsCoherent operation (commit s.evaluated s))
compositor_accepted-IsCoherent CoordinatorPhase.rolling_back_compositor (some operation) s p a v =
    finish-IsCoherent false operation s (ground arith) v.bounded
compositor_accepted-IsCoherent CoordinatorPhase.awaiting_compositor none s p a v = v
compositor_accepted-IsCoherent CoordinatorPhase.rolling_back_compositor none s p a v = v
compositor_accepted-IsCoherent CoordinatorPhase.idle active s p a v = v
compositor_accepted-IsCoherent CoordinatorPhase.awaiting_policy active s p a v = v
compositor_accepted-IsCoherent CoordinatorPhase.rolling_back_policy active s p a v = v
compositor_accepted-IsCoherent CoordinatorPhase.waiting_for_peer active s p a v = v
compositor_accepted-IsCoherent CoordinatorPhase.stopped active s p a v = v

policy_rejected-IsCoherent :
    (phase : CoordinatorPhase) (active : Option LifecycleOperation) (s : LifecycleCoordinator)
    → active ≡ s.active
    → IsCoherent s
    → IsCoherent (policy_rejected_in phase active s).0
policy_rejected-IsCoherent CoordinatorPhase.awaiting_policy (some operation) s a v =
    finish-IsCoherent false operation s (ground arith) v.bounded
policy_rejected-IsCoherent CoordinatorPhase.awaiting_policy none s a v = v
policy_rejected-IsCoherent CoordinatorPhase.idle active s a v = v
policy_rejected-IsCoherent CoordinatorPhase.awaiting_compositor active s a v = v
policy_rejected-IsCoherent CoordinatorPhase.rolling_back_policy active s a v = v
policy_rejected-IsCoherent CoordinatorPhase.rolling_back_compositor active s a v = v
policy_rejected-IsCoherent CoordinatorPhase.waiting_for_peer active s a v = v
policy_rejected-IsCoherent CoordinatorPhase.stopped active s a v = v

-- Every call keeps this: while idle no operation is active, while an answer or the peer is awaited one
-- is, with a phase to resume that awaits an answer; and the active and the waiting operations together
-- stay within the limit, as they are in the constructor's state.
pub after-IsCoherent :
    (c : Input) (s : LifecycleCoordinator) → IsCoherent s → IsCoherent (after c s)
unfolding after
after-IsCoherent (enqueues operation) s v = ground (
  arith,
  length-append s.queue (operation ∷ []),
  advance-IsCoherent false (at_back operation s).queue (at_back operation s),
)
after-IsCoherent (enqueues_paused operation) s v =
    ground (arith, length-append s.queue (operation ∷ []))
after-IsCoherent (enqueues_priority operation) s v =
    ground (arith, advance-IsCoherent false (at_front operation s).queue (at_front operation s))
after-IsCoherent (enqueues_priority_paused operation) s v = ground arith
after-IsCoherent resumes s v = ground (arith, start_next-IsCoherent s)
after-IsCoherent accepts_compositor s v =
    compositor_accepted-IsCoherent s.phase s.active s refl refl v
after-IsCoherent rejects_policy s v = policy_rejected-IsCoherent s.phase s.active s refl v
after-IsCoherent rejects_compositor s v = ground arith
after-IsCoherent synchronizes s v = ground arith
after-IsCoherent disconnects s v = ground arith
after-IsCoherent (accepts_policy evaluated) s v = ground arith
after-IsCoherent (replaces committed) s v = ground arith
after-IsCoherent (cancels client) s v = ground (arith, length-map (cancel_if client) s.queue)

pub new_coordinator-IsCoherent :
    (committed : LifecycleSnapshot) (maximum : ℕ) (callbacks : LifecycleCallbacks)
    → IsCoherent (new_coordinator committed maximum callbacks)
new_coordinator-IsCoherent committed maximum callbacks = ground arith
