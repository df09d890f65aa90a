-- ===== src/Server/Lifecycle/Coordinator/Commits.antt =====
-- src/glasswyrmd/lifecycle_coordinator.cpp: when the committed snapshot changes, and how a failed
-- operation is rolled back.
use glasswyrm.Prelude.{
  ℕ, suc, ◌≡◌, refl, Bool, true, false, not, ◌&&◌, Option, none, some, is_some, List, [], ◌∷◌,
  arith,
}
use glasswyrm.Server.Lifecycle.{LifecycleSnapshot, LifecycleOperation, CoordinatorPhase}
use glasswyrm.Server.Lifecycle.Coordinator.Nested.{enqueue_all-IsNested}
use glasswyrm.Server.Lifecycle.Coordinator.{
  Event, commit_asked, completed, LifecycleCallbacks, LifecycleCoordinator, new_coordinator,
  commit_answered, compositor_accepted_in, policy_rejected_in, commit, at_back, at_front, advance,
  finish, settle, complete, nested_by, enqueue_all, enqueue_nested, Input, after, run, enqueues,
  enqueues_paused, enqueues_priority, enqueues_priority_paused, resumes, accepts_compositor,
  rejects_policy, rejects_compositor, synchronizes, disconnects, accepts_policy, replaces, cancels,
}

-- The snapshot that the commit callback accepted last, or else the one before.
abbrev pub latest : LifecycleSnapshot → List Event → LifecycleSnapshot
latest initial [] = initial
latest initial (commit_asked snapshot true ∷ trace) = snapshot
latest initial (commit_asked snapshot false ∷ trace) = latest initial trace
latest initial (_ ∷ trace) = latest initial trace

-- How many commits were accepted, and how many operations reported as successful.
abbrev pub commits : List Event → ℕ
commits [] = 0
commits (commit_asked snapshot true ∷ trace) = suc (commits trace)
commits (commit_asked snapshot false ∷ trace) = commits trace
commits (_ ∷ trace) = commits trace

abbrev pub successes : List Event → ℕ
successes [] = 0
successes (completed token true ∷ trace) = suc (successes trace)
successes (completed token false ∷ trace) = successes trace
successes (_ ∷ trace) = successes trace

enqueue_all-commits :
    (initial : LifecycleSnapshot) (operations : List LifecycleOperation) (s : LifecycleCoordinator)
    → (latest initial (enqueue_all operations s).trace ≡ latest initial s.trace)
      × (commits (enqueue_all operations s).trace ≡ commits s.trace)
      × (successes (enqueue_all operations s).trace ≡ successes s.trace)
unfolding enqueue_all
enqueue_all-commits initial [] s = (refl, refl, refl)
enqueue_all-commits initial (operation ∷ operations) s =
    ground (arith, enqueue_all-commits initial operations (enqueue_nested operation s))

-- The committed snapshot is the one that was accepted last, and each commit is a success.
pub record IsRecorded (initial : LifecycleSnapshot) (s : LifecycleCoordinator) : Type 0 where
  pub reports : is_some s.callbacks.complete ≡ true
  pub current : s.committed ≡ latest initial s.trace
  pub balanced : successes s.trace ≡ commits s.trace

abbrev pub is_replacement : Input → Bool
is_replacement (replaces committed) = true
is_replacement _ = false

abbrev pub no_replacement : List Input → Bool
no_replacement [] = true
no_replacement (c ∷ cs) = not (is_replacement c) && no_replacement cs

module _ (initial : LifecycleSnapshot) where
  advance-IsRecorded :
      (finishing : Bool) (queue : List LifecycleOperation) (s : LifecycleCoordinator)
      → IsRecorded initial s
      → IsRecorded initial (advance finishing queue s).0
  unfolding advance
  advance-IsRecorded finishing [] s r = ground arith
  advance-IsRecorded finishing (operation ∷ queue) s r = ground (
    arith,
    advance-IsRecorded true queue (settle operation.token false s),
    advance-IsRecorded true queue (complete operation.token false s),
  )

  finish-IsRecorded :
      (operation : LifecycleOperation) (s : LifecycleCoordinator)
      → IsRecorded initial s
      → IsRecorded initial (finish false (some operation) s)
  finish-IsRecorded operation s r =
      ground (arith, advance-IsRecorded true s.queue (settle operation.token false s))

  -- The state between an accepted commit and its report.
  finish_success :
      (operation : LifecycleOperation) (s : LifecycleCoordinator)
      → is_some s.callbacks.complete ≡ true
      → s.committed ≡ latest initial s.trace
      → suc (successes s.trace) ≡ commits s.trace
      → IsRecorded initial (finish true (some operation) s)
  finish_success operation s h c b =
      let operations = nested_by s.callbacks.complete operation.token s in
      let t = complete operation.token true s in
      let e = enqueue_all-IsNested operations t in
      let n = settle operation.token true s in
      let l = enqueue_all-commits initial operations t in
      advance-IsRecorded true n.queue n (record {
        reports = ground (arith, e.same_callbacks);
        current = ground (arith, e.same_committed, l);
        balanced = ground (arith, l);
      })

  commit-IsRecorded :
      (operation : LifecycleOperation) (s : LifecycleCoordinator)
      → IsRecorded initial s
      → IsRecorded initial (commit_answered operation (commit s.evaluated s)).0
  commit-IsRecorded operation s r = ground (
    arith,
    finish_success operation (record (commit s.evaluated s).0 { committed = s.evaluated }),
  )

  compositor_accepted-IsRecorded :
      (phase : CoordinatorPhase) (active : Option LifecycleOperation) (s : LifecycleCoordinator)
      → IsRecorded initial s
      → IsRecorded initial (compositor_accepted_in phase active s).0
  compositor_accepted-IsRecorded CoordinatorPhase.awaiting_compositor (some operation) s r =
      ground (arith, commit-IsRecorded operation s)
  compositor_accepted-IsRecorded CoordinatorPhase.rolling_back_compositor (some operation) s r =
      finish-IsRecorded operation s r
  compositor_accepted-IsRecorded CoordinatorPhase.awaiting_compositor none s r = r
  compositor_accepted-IsRecorded CoordinatorPhase.rolling_back_compositor none s r = r
  compositor_accepted-IsRecorded CoordinatorPhase.idle active s r = r
  compositor_accepted-IsRecorded CoordinatorPhase.awaiting_policy active s r = r
  compositor_accepted-IsRecorded CoordinatorPhase.rolling_back_policy active s r = r
  compositor_accepted-IsRecorded CoordinatorPhase.waiting_for_peer active s r = r
  compositor_accepted-IsRecorded CoordinatorPhase.stopped active s r = r

  policy_rejected-IsRecorded :
      (phase : CoordinatorPhase) (active : Option LifecycleOperation) (s : LifecycleCoordinator)
      → IsRecorded initial s
      → IsRecorded initial (policy_rejected_in phase active s).0
  policy_rejected-IsRecorded CoordinatorPhase.awaiting_policy (some operation) s r =
      finish-IsRecorded operation s r
  policy_rejected-IsRecorded CoordinatorPhase.awaiting_policy none s r = r
  policy_rejected-IsRecorded CoordinatorPhase.idle active s r = r
  policy_rejected-IsRecorded CoordinatorPhase.awaiting_compositor active s r = r
  policy_rejected-IsRecorded CoordinatorPhase.rolling_back_policy active s r = r
  policy_rejected-IsRecorded CoordinatorPhase.rolling_back_compositor active s r = r
  policy_rejected-IsRecorded CoordinatorPhase.waiting_for_peer active s r = r
  policy_rejected-IsRecorded CoordinatorPhase.stopped active s r = r

  after-IsRecorded :
      (c : Input) (s : LifecycleCoordinator)
      → is_replacement c ≡ false
      → IsRecorded initial s
      → IsRecorded initial (after c s)
  unfolding after
  after-IsRecorded (enqueues operation) s e r =
      ground (arith, advance-IsRecorded false (at_back operation s).queue (at_back operation s))
  after-IsRecorded (enqueues_paused operation) s e r = ground arith
  after-IsRecorded (enqueues_priority operation) s e r =
      ground (arith, advance-IsRecorded false (at_front operation s).queue (at_front operation s))
  after-IsRecorded (enqueues_priority_paused operation) s e r = ground arith
  after-IsRecorded resumes s e r = ground (arith, advance-IsRecorded false s.queue s)
  after-IsRecorded accepts_compositor s e r = compositor_accepted-IsRecorded s.phase s.active s r
  after-IsRecorded rejects_policy s e r = policy_rejected-IsRecorded s.phase s.active s r
  after-IsRecorded rejects_compositor s e r = ground arith
  after-IsRecorded synchronizes s e r = ground arith
  after-IsRecorded disconnects s e r = ground arith
  after-IsRecorded (accepts_policy evaluated) s e r = ground arith
  after-IsRecorded (replaces committed) s e r = ground arith
  after-IsRecorded (cancels client) s e r = ground arith

  run-IsRecorded :
      (cs : List Input) (s : LifecycleCoordinator)
      → no_replacement cs ≡ true
      → IsRecorded initial s
      → IsRecorded initial (run cs s)
  run-IsRecorded [] s e r = r
  run-IsRecorded (c ∷ cs) s e r =
      run-IsRecorded cs (after c s) (ground arith) (after-IsRecorded c s (ground arith) r)

-- After any calls but `replace_committed` of a new coordinator that has a completion callback, whatever
-- the callbacks answer: the committed snapshot is the one that the commit callback accepted last, or
-- the initial one, and as many operations were reported as successful as commits were accepted.
pub committed_is_latest :
    (cs : List Input) (initial : LifecycleSnapshot) (maximum : ℕ) (callbacks : LifecycleCallbacks)
    → is_some callbacks.complete ≡ true
    → no_replacement cs ≡ true
    → ((run cs (new_coordinator initial maximum callbacks)).committed
        ≡ latest initial (run cs (new_coordinator initial maximum callbacks)).trace)
      × (successes (run cs (new_coordinator initial maximum callbacks)).trace
          ≡ commits (run cs (new_coordinator initial maximum callbacks)).trace)
committed_is_latest cs initial maximum callbacks h e =
    let r =
      run-IsRecorded initial cs (new_coordinator initial maximum callbacks) e
        (record { reports = h; current = refl; balanced = refl }) in
    (r.current, r.balanced)
