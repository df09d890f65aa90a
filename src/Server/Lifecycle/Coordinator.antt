-- ===== src/Server/Lifecycle/Coordinator.antt =====
-- src/glasswyrmd/lifecycle_coordinator.hpp and lifecycle_coordinator.cpp: one operation at a time goes
-- to the window manager and to the compositor. A callback is a function of all that was called before,
-- so that it may answer anything; each call of one is kept in `trace`, the latest first. A completion
-- callback may enqueue operations when it is told of a success, as the server's does; otherwise none
-- calls the coordinator back.
mod State
pub mod Nested
pub mod Phases
pub mod Completion
pub mod Commits
pub mod Rollback
unfoldable pub use State.*
use glasswyrm.Prelude.{
  ℕ, ◌+◌, Bool, true, false, not, ◌&&◌, ◌||◌, leb, ◌==◌, if◌then◌else◌, Option, none, some, is_some,
  List, [], ◌∷◌, ◌++◌, map, length,
}
use glasswyrm.Prelude.Sort.{bit}
use glasswyrm.Server.Lifecycle.{
  LifecycleSnapshot, LifecycleOperation, CoordinatorPhase, EnqueueStatus, empty_snapshot,
}

abbrev pub started : LifecycleCoordinator × Bool → LifecycleCoordinator × EnqueueStatus
started (s, ok) = (s, (if ok then EnqueueStatus.queued else EnqueueStatus.stopped))

abbrev pub start_if_idle : LifecycleCoordinator → LifecycleCoordinator × EnqueueStatus
start_if_idle s = if is_idle s.phase then started (start_next s) else (s, EnqueueStatus.queued)

abbrev pub at_front : LifecycleOperation → LifecycleCoordinator → LifecycleCoordinator
at_front operation s = record s { queue = operation ∷ s.queue }

unfoldable pub enqueue :
    LifecycleOperation → LifecycleCoordinator → LifecycleCoordinator × EnqueueStatus
unfolding advance
enqueue operation s = queue_if (refusal s) s (start_if_idle (at_back operation s))

unfoldable pub enqueue_priority :
    LifecycleOperation → LifecycleCoordinator → LifecycleCoordinator × EnqueueStatus
unfolding advance
enqueue_priority operation s = queue_if (refusal s) s (start_if_idle (at_front operation s))

unfoldable pub enqueue_priority_paused :
    LifecycleOperation → LifecycleCoordinator → LifecycleCoordinator × EnqueueStatus
enqueue_priority_paused operation s =
    queue_if (refusal s) s (at_front operation s, EnqueueStatus.queued)

unfoldable pub resume : LifecycleCoordinator → LifecycleCoordinator × Bool
unfolding advance
resume s = if not (is_idle s.phase) || is_some s.active then (s, false) else start_next s

abbrev pub in_phase : CoordinatorPhase → LifecycleCoordinator → LifecycleCoordinator
in_phase phase s = record s { phase = phase }

-- `if (callbacks_.prepare_rollback && !callbacks_.prepare_rollback())`, and the policy is sent again.
abbrev pub roll_back : LifecycleCoordinator × Bool → LifecycleCoordinator × Bool
roll_back (s, false) = (fatal s, false)
roll_back (s, true) =
    or_fatal (send_policy s.committed (in_phase CoordinatorPhase.rolling_back_policy s))

abbrev pub begin_rollback : LifecycleCoordinator → LifecycleCoordinator × Bool
begin_rollback s = roll_back (prepare_with s.callbacks.prepare_rollback s)

abbrev pub policy_accepted_in :
    CoordinatorPhase
    → Option LifecycleOperation
    → LifecycleSnapshot
    → LifecycleCoordinator
    → LifecycleCoordinator × Bool
policy_accepted_in CoordinatorPhase.rolling_back_policy (some operation) evaluated s =
    or_fatal (send_compositor s.committed (in_phase CoordinatorPhase.rolling_back_compositor s))
policy_accepted_in CoordinatorPhase.awaiting_policy (some operation) evaluated s =
    let t = record s { evaluated = evaluated } in
    if operation.canceled
    then begin_rollback t
    else or_fatal (send_compositor evaluated (in_phase CoordinatorPhase.awaiting_compositor t))
policy_accepted_in _ _ evaluated s = (s, false)

unfoldable pub policy_accepted :
    LifecycleSnapshot → LifecycleCoordinator → LifecycleCoordinator × Bool
policy_accepted evaluated s = policy_accepted_in s.phase s.active evaluated s

abbrev pub policy_rejected_in :
    CoordinatorPhase
    → Option LifecycleOperation
    → LifecycleCoordinator
    → LifecycleCoordinator × Bool
policy_rejected_in CoordinatorPhase.awaiting_policy (some operation) s =
    (finish false (some operation) s, true)
policy_rejected_in _ _ s = (s, false)

unfoldable pub policy_rejected : LifecycleCoordinator → LifecycleCoordinator × Bool
unfolding advance
policy_rejected s = policy_rejected_in s.phase s.active s

abbrev pub commit_answered :
    LifecycleOperation → LifecycleCoordinator × Bool → LifecycleCoordinator × Bool
commit_answered operation (s, false) = (fatal s, false)
commit_answered operation (s, true) =
    (finish true (some operation) (record s { committed = s.evaluated }), true)

abbrev pub compositor_accepted_in :
    CoordinatorPhase
    → Option LifecycleOperation
    → LifecycleCoordinator
    → LifecycleCoordinator × Bool
compositor_accepted_in CoordinatorPhase.awaiting_compositor (some operation) s =
    if operation.canceled
    then begin_rollback s
    else commit_answered operation (commit s.evaluated s)
compositor_accepted_in CoordinatorPhase.rolling_back_compositor (some operation) s =
    (finish false (some operation) s, true)
compositor_accepted_in _ _ s = (s, false)

unfoldable pub compositor_accepted : LifecycleCoordinator → LifecycleCoordinator × Bool
unfolding advance
compositor_accepted s = compositor_accepted_in s.phase s.active s

abbrev pub compositor_rejected_in :
    CoordinatorPhase
    → Option LifecycleOperation
    → LifecycleCoordinator
    → LifecycleCoordinator × Bool
compositor_rejected_in CoordinatorPhase.awaiting_compositor (some operation) s = begin_rollback s
compositor_rejected_in _ _ s = (s, false)

unfoldable pub compositor_rejected : LifecycleCoordinator → LifecycleCoordinator × Bool
compositor_rejected s = compositor_rejected_in s.phase s.active s

abbrev pub sent_or_fatal : LifecycleCoordinator × Bool → LifecycleCoordinator × Bool
sent_or_fatal (s, true) = (s, true)
sent_or_fatal (s, false) = (fatal s, false)

-- What was being waited for is sent again. An operation is active then, and `proposed` its snapshot.
abbrev pub resend :
    CoordinatorPhase
    → Option LifecycleOperation
    → LifecycleCoordinator
    → LifecycleCoordinator × Bool
resend CoordinatorPhase.awaiting_policy (some operation) s =
    sent_or_fatal (send_policy operation.proposed s)
resend CoordinatorPhase.awaiting_policy none s = (s, false)
resend CoordinatorPhase.rolling_back_policy active s = sent_or_fatal (send_policy s.committed s)
resend CoordinatorPhase.awaiting_compositor active s = sent_or_fatal (send_compositor s.evaluated s)
resend _ active s = sent_or_fatal (send_compositor s.committed s)

abbrev pub is_waiting : CoordinatorPhase → Bool
is_waiting CoordinatorPhase.waiting_for_peer = true
is_waiting _ = false

unfoldable pub peer_synchronized : LifecycleCoordinator → LifecycleCoordinator × Bool
peer_synchronized s =
    if not (is_waiting s.phase)
    then (s, false)
    else resend s.resume_phase s.active (in_phase s.resume_phase s)

unfoldable pub peer_disconnected : LifecycleCoordinator → LifecycleCoordinator
peer_disconnected s =
    if is_stopped s.phase || is_idle s.phase || is_waiting s.phase
    then s
    else record s { resume_phase = s.phase; phase = CoordinatorPhase.waiting_for_peer }

abbrev pub cancel_if : ℕ → LifecycleOperation → LifecycleOperation
cancel_if client operation =
    if operation.client_id == client then record operation { canceled = true } else operation

abbrev pub cancel_active : ℕ → Option LifecycleOperation → Option LifecycleOperation
cancel_active client none = none
cancel_active client (some operation) = some (cancel_if client operation)

unfoldable pub cancel_client : ℕ → LifecycleCoordinator → LifecycleCoordinator
cancel_client client s = record s {
  queue = map (cancel_if client) s.queue;
  active = cancel_active client s.active;
}

unfoldable pub replace_committed :
    LifecycleSnapshot → LifecycleCoordinator → LifecycleCoordinator × Bool
replace_committed committed s =
    if is_idle s.phase && not (is_some s.active)
    then (record s { committed = committed }, true)
    else (s, false)

-- One call of the class.
pub data Input : Type 0 where
  enqueues enqueues_paused enqueues_priority enqueues_priority_paused : LifecycleOperation → Input
  resumes accepts_compositor rejects_policy rejects_compositor synchronizes disconnects : Input
  accepts_policy replaces : LifecycleSnapshot → Input
  cancels : ℕ → Input

pub after : Input → LifecycleCoordinator → LifecycleCoordinator
unfolding enqueue enqueue_priority enqueue_priority_paused resume policy_accepted policy_rejected
    compositor_accepted compositor_rejected peer_synchronized peer_disconnected cancel_client
    replace_committed
after (enqueues operation) s = (enqueue operation s).0
after (enqueues_paused operation) s = (enqueue_paused operation s).0
after (enqueues_priority operation) s = (enqueue_priority operation s).0
after (enqueues_priority_paused operation) s = (enqueue_priority_paused operation s).0
after resumes s = (resume s).0
after accepts_compositor s = (compositor_accepted s).0
after rejects_policy s = (policy_rejected s).0
after rejects_compositor s = (compositor_rejected s).0
after synchronizes s = (peer_synchronized s).0
after disconnects s = peer_disconnected s
after (accepts_policy evaluated) s = (policy_accepted evaluated s).0
after (replaces committed) s = (replace_committed committed s).0
after (cancels client) s = cancel_client client s

abbrev pub run : List Input → LifecycleCoordinator → LifecycleCoordinator
run [] s = s
run (c ∷ cs) s = run cs (after c s)
