-- ===== src/Wm/Interaction/Ending.antt =====
-- src/wm/interactive_policy.cpp: how a move or a resize ends.
use glasswyrm.Prelude.{ℕ, ◌≤◌, ◌≡◌, true, false, none, arith, is_some, if◌then◌else◌}
use glasswyrm.Wm.Interaction.{
  InteractionKind, InteractivePolicy, InteractiveGeometry, PointerPosition, InteractionBegin, begin,
  motion, take_geometry_request, complete_geometry, release, confirm_cursor_published, finish,
  finish_ready, abort, is_idle, same_pointer, is_settled,
}

-- One call of the class.
pub data Input : Type 0 where
  begins : InteractionBegin → Input
  moves : PointerPosition → Input
  takes confirms finishes aborts : Input
  completes : InteractiveGeometry → Input
  releases : ℕ → PointerPosition → Input

pub after : Input → InteractivePolicy → InteractivePolicy
unfolding begin motion take_geometry_request complete_geometry release confirm_cursor_published
    finish abort
after (begins request) s = (begin request s).0
after (moves pointer) s = motion pointer s
after takes s = (take_geometry_request s).0
after confirms s = (confirm_cursor_published s).0
after finishes s = (finish s).0
after aborts s = (abort s).0
after (completes applied) s = (complete_geometry applied s).0
after (releases button pointer) s = (release button pointer s).0

-- While idle, nothing is left over: no target, button, cursor, request or end. Else there is a
-- target, a button and a geometry that is not empty; a request in flight has its pointer kept.
pub record IsConsistent (s : InteractivePolicy) : Type 0 where
  pub clean :
      is_idle s.kind ≡ true
      → (s.target ≡ 0)
        × (s.button ≡ 0)
        × (s.dispatched_pointer ≡ none)
        × (s.transaction_in_flight ≡ false)
        × (s.ending ≡ false)
        × (s.cursor_published ≡ false)
  pub busy :
      is_idle s.kind ≡ false
      → (1 ≤ s.target)
        × (1 ≤ s.button)
        × (1 ≤ s.last_committed.width)
        × (1 ≤ s.last_committed.height)
  pub in_flight : s.transaction_in_flight ≡ true → is_some s.dispatched_pointer ≡ true

-- Every call keeps the state consistent: while idle no target, button, request, end or published
-- cursor is left over; while busy the target, the button and the committed geometry are not 0;
-- and a request in flight has its pointer kept.
pub after-IsConsistent :
    (c : Input) (s : InteractivePolicy) → IsConsistent s → IsConsistent (after c s)
unfolding after
after-IsConsistent c s v = ground arith

-- Completes what is in flight with a geometry.
abbrev settle : InteractiveGeometry → InteractivePolicy → InteractivePolicy
settle applied s = if s.transaction_in_flight then (complete_geometry applied s).0 else s

-- The calls that end an interaction after a release at the pointer: what is in flight is completed,
-- the last request is taken and completed, and the cursor published.
abbrev pub wind_up : InteractiveGeometry → PointerPosition → InteractivePolicy → InteractivePolicy
wind_up applied pointer s =
    (confirm_cursor_published
      (settle applied (take_geometry_request (settle applied (release s.button pointer s).0)).0)).0

same_refl : (p : PointerPosition) → same_pointer p p ≡ true
same_refl p = ground arith

-- An interaction that waits for its end.
record Released (s : InteractivePolicy) : Type 0 where
  busy : is_idle s.kind ≡ false
  ends : s.ending ≡ true

release-Released :
    (pointer : PointerPosition) (s : InteractivePolicy)
    → is_idle s.kind ≡ false
    → Released (release s.button pointer s).0
unfolding release
release-Released pointer s k = ground arith

settle-Released :
    (applied : InteractiveGeometry) (s : InteractivePolicy)
    → 1 ≤ applied.width
    → 1 ≤ applied.height
    → Released s
    → Released (settle applied s)
      × ((settle applied s).transaction_in_flight ≡ false)
      × ((is_settled s ≡ true) → is_settled (settle applied s) ≡ true)
unfolding complete_geometry
settle-Released applied s w h r = ground arith

take-Released :
    (s : InteractivePolicy)
    → Released s
    → s.transaction_in_flight ≡ false
    → Released (take_geometry_request s).0 × (is_settled (take_geometry_request s).0 ≡ true)
unfolding take_geometry_request
take-Released s r f = ground (arith, same_refl s.latest_pointer)

confirm-Released :
    (s : InteractivePolicy)
    → Released s
    → s.transaction_in_flight ≡ false
    → is_settled s ≡ true
    → ((finish (confirm_cursor_published s).0).1 ≡ true)
      × ((finish (confirm_cursor_published s).0).0.kind ≡ InteractionKind.idle)
unfolding finish finish_ready abort confirm_cursor_published
confirm-Released s r f h = ground arith

-- An interaction under way can always be ended: after the release of its button, the completion
-- of what is in flight, a last request and its completion, with a geometry that is not empty,
-- and the publication of the cursor, `finish` succeeds and the policy is idle.
pub finish-wind_up :
    (s : InteractivePolicy) (applied : InteractiveGeometry) (pointer : PointerPosition)
    → is_idle s.kind ≡ false
    → 1 ≤ applied.width
    → 1 ≤ applied.height
    → ((finish (wind_up applied pointer s)).1 ≡ true)
      × ((finish (wind_up applied pointer s)).0.kind ≡ InteractionKind.idle)
finish-wind_up s applied pointer k w h =
    let released = (release s.button pointer s).0 in
    let settled = settle applied released in
    let taken = (take_geometry_request settled).0 in
    let (r, idle, _) = settle-Released applied released w h (release-Released pointer s k) in
    let (q, done) = take-Released settled r idle in
    let (last, quiet, same) = settle-Released applied taken w h q in
    confirm-Released (settle applied taken) last quiet (same done)
