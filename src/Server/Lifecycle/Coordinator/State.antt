-- ===== src/Server/Lifecycle/Coordinator/State.antt =====
-- src/glasswyrmd/lifecycle_coordinator.cpp: the state, the calls of callbacks, `start_next` and
-- `finish`.
use glasswyrm.Prelude.{
  ℕ, Bool, true, false, not, ◌&&◌, if◌then◌else◌, Option, none, some, is_some, List, [], ◌∷◌, ◌+◌,
  ◌++◌, leb, length,
}
use glasswyrm.Prelude.Sort.{bit}
use glasswyrm.Server.Lifecycle.{
  LifecycleSnapshot, LifecycleOperation, CoordinatorPhase, EnqueueStatus, empty_snapshot,
}

-- A call of a callback, with its answer; and a call of `enqueue` from within the completion callback.
pub data Event : Type 0 where
  policy_sent compositor_sent commit_asked : LifecycleSnapshot → Bool → Event
  completed : ℕ → Bool → Event
  nested : LifecycleOperation → EnqueueStatus → Event
  rollback_prepared : Bool → Event
  stop_reported : Event

-- Each std::function may be empty. `complete` answers which operations it enqueues before it returns
-- from a report of success, as ServerRuntime::complete_lifecycle does with the next geometry of an
-- interactive move (update_interactive_geometry in interactive_wm.cpp).
pub record LifecycleCallbacks : Type 0 where
  pub send_policy : Option (List Event → LifecycleSnapshot → Bool)
  pub send_compositor : Option (List Event → LifecycleSnapshot → Bool)
  pub commit : Option (List Event → LifecycleSnapshot → Bool)
  pub complete : Option (List Event → ℕ → List LifecycleOperation)
  pub has_fatal : Bool
  pub rebase :
      Option (List Event → LifecycleSnapshot → LifecycleOperation → Option LifecycleSnapshot)
  pub prepare_rollback : Option (List Event → Bool)

pub record LifecycleCoordinator : Type 0 where
  pub committed : LifecycleSnapshot
  pub evaluated : LifecycleSnapshot
  pub queue : List LifecycleOperation
  pub active : Option LifecycleOperation
  pub maximum_pending : ℕ
  pub callbacks : LifecycleCallbacks
  pub phase : CoordinatorPhase
  pub resume_phase : CoordinatorPhase
  pub trace : List Event

-- The constructor.
abbrev pub new_coordinator : LifecycleSnapshot → ℕ → LifecycleCallbacks → LifecycleCoordinator
new_coordinator committed maximum_pending callbacks = record {
  committed = committed;
  evaluated = empty_snapshot;
  queue = [];
  active = none;
  maximum_pending = maximum_pending;
  callbacks = callbacks;
  phase = CoordinatorPhase.idle;
  resume_phase = CoordinatorPhase.idle;
  trace = [];
}

abbrev pub log : Event → LifecycleCoordinator → LifecycleCoordinator
log event s = record s { trace = event ∷ s.trace }

-- `callbacks_.f && callbacks_.f(snapshot)`, and the event of the call.
abbrev pub ask :
    Option (List Event → LifecycleSnapshot → Bool)
    → (Bool → Event)
    → LifecycleSnapshot
    → LifecycleCoordinator
    → LifecycleCoordinator × Bool
ask none event snapshot s = (s, false)
ask (some f) event snapshot s = (log (event (f s.trace snapshot)) s, f s.trace snapshot)

abbrev pub send_policy : LifecycleSnapshot → LifecycleCoordinator → LifecycleCoordinator × Bool
send_policy snapshot s = ask s.callbacks.send_policy (Event.policy_sent snapshot) snapshot s

abbrev pub send_compositor : LifecycleSnapshot → LifecycleCoordinator → LifecycleCoordinator × Bool
send_compositor snapshot s =
    ask s.callbacks.send_compositor (Event.compositor_sent snapshot) snapshot s

abbrev pub commit : LifecycleSnapshot → LifecycleCoordinator → LifecycleCoordinator × Bool
commit snapshot s = ask s.callbacks.commit (Event.commit_asked snapshot) snapshot s

-- Without the callback, a rollback is prepared.
abbrev pub prepare_with :
    Option (List Event → Bool) → LifecycleCoordinator → LifecycleCoordinator × Bool
prepare_with none s = (s, true)
prepare_with (some f) s = (log (Event.rollback_prepared (f s.trace)) s, f s.trace)

abbrev pub complete : ℕ → Bool → LifecycleCoordinator → LifecycleCoordinator
complete token success s =
    if is_some s.callbacks.complete then log (Event.completed token success) s else s

abbrev pub fatal : LifecycleCoordinator → LifecycleCoordinator
fatal s =
    let t = record s { phase = CoordinatorPhase.stopped } in
    if s.callbacks.has_fatal then log Event.stop_reported t else t

abbrev pub is_stopped : CoordinatorPhase → Bool
is_stopped CoordinatorPhase.stopped = true
is_stopped _ = false

abbrev pub is_idle : CoordinatorPhase → Bool
is_idle CoordinatorPhase.idle = true
is_idle _ = false

-- `if (!sent) fatal();`, and whether the phase is not Fatal.
abbrev pub or_fatal : LifecycleCoordinator × Bool → LifecycleCoordinator × Bool
or_fatal (s, true) = (s, not (is_stopped s.phase))
or_fatal (s, false) = (fatal s, false)

abbrev pub pending_count : LifecycleCoordinator → ℕ
pending_count s = length s.queue + bit (is_some s.active)

-- The guards of the four ways to enqueue.
abbrev pub refusal : LifecycleCoordinator → Option EnqueueStatus
refusal s =
    if is_stopped s.phase
    then some EnqueueStatus.stopped
    else (if leb s.maximum_pending (pending_count s) then some EnqueueStatus.full else none)

abbrev pub queue_if :
    Option EnqueueStatus
    → LifecycleCoordinator
    → LifecycleCoordinator × EnqueueStatus
    → LifecycleCoordinator × EnqueueStatus
queue_if (some status) s queued = (s, status)
queue_if none s queued = queued

abbrev pub at_back : LifecycleOperation → LifecycleCoordinator → LifecycleCoordinator
at_back operation s = record s { queue = s.queue ++ (operation ∷ []) }

abbrev pub enqueue_paused :
    LifecycleOperation → LifecycleCoordinator → LifecycleCoordinator × EnqueueStatus
enqueue_paused operation s = queue_if (refusal s) s (at_back operation s, EnqueueStatus.queued)

-- The callback enqueues while the operation that it reports is still active, where `enqueue` and
-- `enqueue_paused` do the same.
abbrev pub enqueue_nested : LifecycleOperation → LifecycleCoordinator → LifecycleCoordinator
enqueue_nested operation s =
    log (Event.nested operation (enqueue_paused operation s).1) (enqueue_paused operation s).0

unfoldable pub enqueue_all : List LifecycleOperation → LifecycleCoordinator → LifecycleCoordinator
enqueue_all [] s = s
enqueue_all (operation ∷ operations) s = enqueue_all operations (enqueue_nested operation s)

abbrev pub nested_by :
    Option (List Event → ℕ → List LifecycleOperation)
    → ℕ
    → LifecycleCoordinator
    → List LifecycleOperation
nested_by none token s = []
nested_by (some f) token s = f s.trace token

-- `callbacks_.complete(token, success)` of the active operation, with what the callback enqueues.
abbrev pub report : ℕ → Bool → LifecycleCoordinator → LifecycleCoordinator
report token false s = complete token false s
report token true s = enqueue_all (nested_by s.callbacks.complete token s) (complete token true s)

-- The first half of `finish`: the active operation is completed.
abbrev pub settle : ℕ → Bool → LifecycleCoordinator → LifecycleCoordinator
settle token success s = record (report token success s) {
  active = none;
  evaluated = empty_snapshot;
  phase = CoordinatorPhase.idle;
}

abbrev pub rebase_with :
    Option (List Event → LifecycleSnapshot → LifecycleOperation → Option LifecycleSnapshot)
    → LifecycleCoordinator
    → LifecycleOperation
    → Option LifecycleSnapshot
rebase_with none s operation = some operation.proposed
rebase_with (some f) s operation = f s.trace s.committed operation

-- The operation becomes active, with its snapshot, and is sent.
abbrev pub activate :
    LifecycleOperation
    → LifecycleSnapshot
    → List LifecycleOperation
    → LifecycleCoordinator
    → LifecycleCoordinator × Bool
activate operation proposed queue s = or_fatal (
    send_policy proposed (record s {
      active = some (record operation { proposed = proposed });
      queue = queue;
      phase = CoordinatorPhase.awaiting_policy;
    }))

abbrev pub unless_stopped : LifecycleCoordinator × Bool → LifecycleCoordinator × Bool
unless_stopped (s, _) = (s, not (is_stopped s.phase))

-- `start_next` and the loop of `finish`, which call each other, on a queue that shrinks: when
-- finishing, canceled operations at its front are completed first; an operation that cannot be rebased
-- is finished at once.
unfoldable pub advance :
    Bool → List LifecycleOperation → LifecycleCoordinator → LifecycleCoordinator × Bool
advance finishing [] s = (record s { queue = [] }, true)
advance finishing (operation ∷ queue) s = elim (finishing && operation.canceled) [
  | true ↦ advance true queue (complete operation.token false s)
  | false ↦ elim (rebase_with s.callbacks.rebase s operation) [
    | some proposed ↦ activate operation proposed queue s
    | none ↦ unless_stopped (advance true queue (settle operation.token false s))
  ]
]

abbrev pub start_next : LifecycleCoordinator → LifecycleCoordinator × Bool
start_next s = if is_some s.active then (s, true) else advance false s.queue s

-- The active operation is there whenever `finish` is called.
abbrev pub finish : Bool → Option LifecycleOperation → LifecycleCoordinator → LifecycleCoordinator
finish success none s = s
finish success (some operation) s =
    let t = settle operation.token success s in (advance true t.queue t).0
