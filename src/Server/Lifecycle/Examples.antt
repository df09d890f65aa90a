-- ===== src/Server/Lifecycle/Examples.antt =====
-- src/glasswyrmd/lifecycle_coordinator.cpp on the operations of two clients.
use glasswyrm.Prelude.{
  ℕ, ◌≡◌, ◌+◌, ◌==◌, refl, Bool, true, false, if◌then◌else◌, List, [], ◌∷◌, Option, none, some,
  arith,
}
use glasswyrm.Prelude.Map
use glasswyrm.Server.Lifecycle.{
  LifecycleWindow, LifecycleSnapshot, LifecycleOperation, LifecycleOperationKind, CoordinatorPhase,
  empty_snapshot,
}
use glasswyrm.Server.Lifecycle.Rebase.{rebase_lifecycle_operation}
use glasswyrm.Server.Lifecycle.Rebase.Windows.{rebase_cleanup}
use glasswyrm.Server.Lifecycle.Coordinator.{
  LifecycleCallbacks, LifecycleCoordinator, new_coordinator, Input, enqueues, accepts_policy,
  accepts_compositor, cancels, run, after, finish, compositor_rejected, policy_accepted,
  compositor_accepted,
}
use glasswyrm.Server.Lifecycle.Coordinator.Phases.{
  IsCoherent, after-IsCoherent, new_coordinator-IsCoherent,
}
use glasswyrm.Server.Lifecycle.Coordinator.Nested.{waiting, nested_in}
use glasswyrm.Server.Lifecycle.Coordinator.Completion.{reported, held, accepted_in, completed_once}
use glasswyrm.Server.Lifecycle.Coordinator.Commits.{latest, commits, successes, committed_is_latest}
use glasswyrm.Server.Lifecycle.Coordinator.Rollback.{rolled_back, rejected_is_rolled_back}

abbrev removal : ℕ → ℕ → LifecycleOperation
removal token client = record {
  token = token;
  client_id = client;
  request_sequence = 0;
  kind = LifecycleOperationKind.client_cleanup;
  window = 0;
  proposed = empty_snapshot;
  canceled = false;
}

abbrev callbacks : LifecycleCallbacks
callbacks = record {
  send_policy = some (λ trace snapshot. true);
  send_compositor = some (λ trace snapshot. true);
  commit = some (λ trace snapshot. true);
  complete = some (λ trace token. if token == 1 then removal 3 30 ∷ removal 4 30 ∷ [] else []);
  has_fatal = true;
  rebase = some (λ trace committed operation. rebase_lifecycle_operation committed operation);
  prepare_rollback = some (λ trace. true);
}

abbrev screen : LifecycleSnapshot
screen = record empty_snapshot { root_order = 7 ∷ [] }

abbrev inputs : List Input
inputs =
    enqueues (removal 1 10)
    ∷ enqueues (removal 2 20)
    ∷ cancels 20
    ∷ accepts_policy screen
    ∷ accepts_compositor
    ∷ []

abbrev fresh : LifecycleCoordinator
fresh = new_coordinator empty_snapshot 4 callbacks

completed_once_example :
    reported 3 (run inputs fresh).trace
      + held 3 (run inputs fresh).active
      + waiting 3 (run inputs fresh).queue
    ≡ accepted_in 3 inputs fresh + nested_in 3 (run inputs fresh).trace
completed_once_example = completed_once 3 inputs empty_snapshot 4 callbacks refl

committed_is_latest_example :
    ((run inputs fresh).committed ≡ latest empty_snapshot (run inputs fresh).trace)
    × (successes (run inputs fresh).trace ≡ commits (run inputs fresh).trace)
committed_is_latest_example = committed_is_latest inputs empty_snapshot 4 callbacks refl refl

after-IsCoherent_example : IsCoherent (after (enqueues (removal 1 10)) fresh)
after-IsCoherent_example =
    after-IsCoherent (enqueues (removal 1 10)) fresh
      (new_coordinator-IsCoherent empty_snapshot 4 callbacks)

abbrev awaiting : LifecycleCoordinator
awaiting = record fresh {
  active = some (removal 1 10);
  phase = CoordinatorPhase.awaiting_compositor;
  evaluated = screen;
}

rejected_is_rolled_back_example :
    ((compositor_accepted (policy_accepted screen (compositor_rejected awaiting).0).0).0
      ≡ finish false (some (removal 1 10)) (rolled_back awaiting))
    × ((compositor_accepted (policy_accepted screen (compositor_rejected awaiting).0).0).0.committed
        ≡ awaiting.committed)
rejected_is_rolled_back_example =
    rejected_is_rolled_back awaiting (removal 1 10) screen (λ trace. true) (λ trace snapshot. true)
      (λ trace snapshot. true) refl refl refl refl refl refl refl refl

abbrev window : LifecycleWindow
window = record {
  xid = 7;
  parent = 1;
  window_class = glasswyrm.Server.Lifecycle.WindowClass.input_output;
  requested_x = glasswyrm.Prelude.Int.pos 0;
  requested_y = glasswyrm.Prelude.Int.pos 0;
  requested_width = 10;
  requested_height = 10;
  requested_border_width = 0;
  override_redirect = false;
  map_requested = true;
  policy_visible = true;
  focused = false;
  creation_serial = 1;
  map_serial = 1;
  focus_serial = 1;
  geometry_serial = 0;
  stack_serial = 0;
  stack_sibling = 0;
  stack_mode = glasswyrm.Server.Lifecycle.LifecycleStackMode.unset;
  transient_for = 0;
  policy_window_type = glasswyrm.Server.Lifecycle.PolicyWindowType.normal;
  decoration_preference = glasswyrm.Server.Lifecycle.PolicyDecoration.unknown;
  fullscreen_requested = false;
  maximized_requested = false;
  above_requested = false;
  bypass_compositor = false;
  attention_requested = false;
  input_requested = true;
  minimum_width = 0;
  minimum_height = 0;
  maximum_width = 0;
  maximum_height = 0;
  saved_normal_geometry = none;
  applied_x = glasswyrm.Prelude.Int.pos 0;
  applied_y = glasswyrm.Prelude.Int.pos 0;
  stacking = glasswyrm.Prelude.Int.negsuc 0;
  applied_width = 10;
  applied_height = 10;
  window_type = 0;
  applied_state = 0;
  managed = true;
  decoration_eligible = false;
  fullscreen_eligible = 0;
  direct_scanout_eligible = 0;
  assigned_output_id = 0;
  output_memberships = [];
  scale = record {
    primary_output = 0;
    preferred_scale_numerator = 1;
    preferred_scale_denominator = 1;
    accepted_buffer_scale = 1;
    layout_generation = 1;
    output_memberships = [];
    has_output_state = false;
    presentation = glasswyrm.Server.Lifecycle.WindowScalePresentationState.legacy;
    scaled_pixmap_storage = none;
    presentation_serial = 0;
    event_selections = [];
  };
}

abbrev two_windows : LifecycleSnapshot
two_windows = record empty_snapshot {
  windows = (7, window) ∷ (8, record window { xid = 8 }) ∷ [];
  root_order = 7 ∷ 8 ∷ [];
}

rebase_cleanup_example :
    (r : LifecycleSnapshot) × (rebase_lifecycle_operation two_windows (removal 1 10) ≡ some r)
    × ((j : ℕ)
        → Map.find j r.windows ≡ (
            if Map.contains j empty_snapshot.windows then Map.find j two_windows.windows else none))
rebase_cleanup_example = rebase_cleanup two_windows (removal 1 10) refl
