-- ===== src/Wm/Interaction.antt =====
-- src/wm/interactive_policy.hpp and interactive_policy.cpp: a window that the pointer moves or
-- resizes. The fields of the class lose their trailing underscore.
mod State
pub mod Requests
pub mod Ending
mod Examples
unfoldable pub use State.*
use glasswyrm.Prelude.{
  ℕ, ◌-◌, ◌^◌, Bool, true, false, not, ◌&&◌, ◌||◌, ltb, ◌==◌, ◌!=◌, if◌then◌else◌, Option, none,
  some,
}
use glasswyrm.Prelude.Int.{ℤ, pos, negsuc, pos_part, ◌+ℤ◌, ◌-ℤ◌, ltb_ℤ, eqb_ℤ}
use glasswyrm.Wm.Types.{maximum_window_extent}

-- std::clamp on int64_t, wide enough for both sums.
abbrev pub clamp : ℤ → ℤ → ℤ → ℤ
clamp value low high = if ltb_ℤ value low then low else (if ltb_ℤ high value then high else value)

unfoldable pub add_coordinate : ℤ → ℤ → ℤ
add_coordinate origin delta = clamp (origin +ℤ delta) (negsuc (2 ^ 31 - 1)) (pos (2 ^ 31 - 1))

-- The clamped number is not negative, so the cast to uint32_t keeps it.
unfoldable pub resize_extent : ℕ → ℤ → ℕ → ℕ
resize_extent origin delta minimum =
    pos_part (clamp (pos origin +ℤ delta) (pos minimum) (pos maximum_window_extent))

abbrev cursor_of : InteractionKind → InteractionCursor
cursor_of InteractionKind.move = InteractionCursor.fleur_move
cursor_of InteractionKind.idle = InteractionCursor.bottom_right_resize
cursor_of InteractionKind.resize_bottom_right = InteractionCursor.bottom_right_resize

unfoldable pub begin :
    InteractionBegin → InteractivePolicy → InteractivePolicy × InteractionBeginResult
begin request s =
    if not (is_idle s.kind)
      || is_idle request.kind
      || request.target == 0
      || request.button == 0
      || request.applied_geometry.width == 0
      || request.applied_geometry.height == 0
      || not request.managed
      || not request.visible
      || not request.direct_root
      || not request.input_output
    then (s, not_accepted)
    else (
      record s {
        kind = request.kind;
        target = request.target;
        button = request.button;
        initial_pointer = request.pointer;
        latest_pointer = request.pointer;
        dispatched_pointer = none;
        initial_geometry = request.applied_geometry;
        last_committed = request.applied_geometry;
        transaction_in_flight = false;
        ending = false;
        cursor_published = false;
        cursor = cursor_of request.kind;
      },
      record {
        accepted = true;
        consume_event = s.bindings.consume_wm_bindings;
        focus = true;
        raise = s.bindings.raise_on_focus;
        cursor = cursor_of request.kind;
      },
    )

unfoldable pub motion : PointerPosition → InteractivePolicy → InteractivePolicy
motion pointer s = if is_idle s.kind then s else record s { latest_pointer = pointer }

-- `dispatched_pointer_ && *dispatched_pointer_ == latest_pointer_`.
abbrev pub dispatched : Option PointerPosition → PointerPosition → Bool
dispatched none pointer = false
dispatched (some last) pointer = same_pointer last pointer

abbrev pub is_settled : InteractivePolicy → Bool
is_settled s =
    same_pointer s.latest_pointer s.initial_pointer
    || dispatched s.dispatched_pointer s.latest_pointer

-- The geometry for the latest pointer.
unfoldable pub geometry_at : InteractionKind → InteractivePolicy → InteractiveGeometry
geometry_at InteractionKind.move s = record (s.initial_geometry) {
  x = add_coordinate s.initial_geometry.x (s.latest_pointer.x -ℤ s.initial_pointer.x);
  y = add_coordinate s.initial_geometry.y (s.latest_pointer.y -ℤ s.initial_pointer.y);
}
geometry_at _ s = record (s.initial_geometry) {
  width =
      resize_extent s.initial_geometry.width (s.latest_pointer.x -ℤ s.initial_pointer.x)
        s.bindings.minimum_width;
  height =
      resize_extent s.initial_geometry.height (s.latest_pointer.y -ℤ s.initial_pointer.y)
        s.bindings.minimum_height;
}

unfoldable pub take_geometry_request :
    InteractivePolicy → InteractivePolicy × Option InteractiveGeometry
take_geometry_request s =
    if is_idle s.kind || s.transaction_in_flight || is_settled s then (s, none) else (
      record s { dispatched_pointer = some s.latest_pointer; transaction_in_flight = true },
      some (geometry_at s.kind s),
    )

unfoldable pub complete_geometry :
    InteractiveGeometry → InteractivePolicy → InteractivePolicy × Bool
complete_geometry applied s =
    if not s.transaction_in_flight || applied.width == 0 || applied.height == 0
    then (s, false)
    else (record s { last_committed = applied; transaction_in_flight = false }, true)

unfoldable pub release : ℕ → PointerPosition → InteractivePolicy → InteractivePolicy × Bool
release button pointer s =
    if is_idle s.kind || button != s.button
    then (s, false)
    else (record s { latest_pointer = pointer; ending = true }, true)

unfoldable pub confirm_cursor_published : InteractivePolicy → InteractivePolicy × Bool
confirm_cursor_published s =
    if is_idle s.kind then (s, false) else (record s { cursor_published = true }, true)

unfoldable pub finish_ready : InteractivePolicy → Bool
finish_ready s =
    if not s.ending || s.transaction_in_flight || not s.cursor_published
    then false
    else is_settled s

unfoldable pub abort : InteractivePolicy → InteractivePolicy × Bool
abort s = if is_idle s.kind then (s, false) else (
  record s {
    kind = InteractionKind.idle;
    cursor = InteractionCursor.unchanged;
    target = 0;
    button = 0;
    dispatched_pointer = none;
    transaction_in_flight = false;
    ending = false;
    cursor_published = false;
  },
  true,
)

unfoldable pub finish : InteractivePolicy → InteractivePolicy × Bool
unfolding finish_ready abort
finish s = if not (finish_ready s) then (s, false) else abort s

pub data CloseAction : Type 0 where
  keep send_delete_window destroy_top_level : CloseAction

pub record CloseDecision : Type 0 where
  action : CloseAction
  pub consume_event : Bool
  pub target : ℕ
  event_time : ℕ

unfoldable pub evaluate_close_binding :
    InteractiveBindings → ℕ → ℕ → ℕ → Bool → Bool → Bool → ℕ → CloseDecision
evaluate_close_binding bindings modifiers keysym focused_window focused_managed_top_level
      focused_override_redirect supports_delete_window event_time =
    if modifiers != bindings.close_modifiers
      || keysym != bindings.close_keysym
      || focused_window == 0
      || not focused_managed_top_level
      || focused_override_redirect
    then record { action = CloseAction.keep; consume_event = false; target = 0; event_time = 0 }
    else record {
      action =
          (if supports_delete_window
            then CloseAction.send_delete_window
            else CloseAction.destroy_top_level);
      consume_event = bindings.consume_wm_bindings;
      target = focused_window;
      event_time = event_time;
    }
