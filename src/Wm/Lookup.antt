-- ===== src/Wm/Lookup.antt =====
-- src/wm/policy_ordering.cpp and the reads of a snapshot that several files of src/wm share.
-- `raw.windows.at(id)` throws on a missing id, which a validated snapshot never asks for; here it
-- gives an empty window.
use glasswyrm.Prelude.{
  ℕ, zero, suc, ◌+◌, ◌/◌, ◌%◌, ◌^◌, List, [], ◌∷◌, Bool, true, false, not, ◌&&◌, ◌==◌, ◌!=◌,
  if◌then◌else◌, some_or, length,
}
use glasswyrm.Prelude.Int.{pos}
use glasswyrm.Prelude.Map
use glasswyrm.Prelude.Sort.{sort, lex_lt}
use glasswyrm.Wm.Types.{
  WindowType, DecorationPreference, StackMode, AppliedState, RawWindow, RawState, WindowState,
  PolicyState, empty_state,
}

abbrev pub empty_window : RawWindow
empty_window = record {
  window_id = 0;
  parent_window_id = 0;
  transient_for = 0;
  workspace_id = 0;
  requested_x = pos 0;
  requested_y = pos 0;
  requested_width = 0;
  requested_height = 0;
  border_width = 0;
  window_type = WindowType.unknown;
  wants_map = false;
  override_redirect = false;
  decoration_preference = DecorationPreference.unknown;
  fullscreen_requested = false;
  maximized_requested = false;
  minimized_requested = false;
  attention_requested = false;
  creation_serial = 0;
  map_serial = 0;
  focus_serial = 0;
  flags = 0;
  geometry_serial = 0;
  stack_serial = 0;
  stack_sibling = 0;
  stack_mode = StackMode.unset;
}

abbrev pub window_at : RawState → ℕ → RawWindow
window_at raw id = some_or (Map.find id raw.windows) empty_window

abbrev pub state_at : PolicyState → ℕ → WindowState
state_at policy id = some_or (Map.find id policy.windows) empty_state

-- `(flags & (1 << n)) != 0`
abbrev pub flag_set : ℕ → ℕ → Bool
flag_set flags n = flags / 2 ^ n % 2 != 0

abbrev pub above_flag : ℕ
above_flag = 0

abbrev pub input_disabled_flag : ℕ
input_disabled_flag = 2

abbrev pub is_fullscreen : AppliedState → Bool
is_fullscreen AppliedState.fullscreen = true
is_fullscreen _ = false

abbrev pub is_maximized : AppliedState → Bool
is_maximized AppliedState.maximized = true
is_maximized _ = false

abbrev pub is_minimized : AppliedState → Bool
is_minimized AppliedState.minimized = true
is_minimized _ = false

-- The ids of the windows that pass a test, in map order.
unfoldable pub ids_where : (RawWindow → Bool) → Map.NatMap RawWindow → List ℕ
ids_where p [] = []
ids_where p ((id, window) ∷ m) = if p window then id ∷ ids_where p m else ids_where p m

-- `while (current != 0) { ++value; current = raw.windows.at(current).transient_for; }`. A chain of a
-- snapshot with no cycle is no longer than the map, which is the fuel.
unfoldable pub depth_loop : ℕ → RawState → ℕ → ℕ → ℕ
depth_loop zero raw current value = value
depth_loop (suc fuel) raw current value =
    let rest = depth_loop fuel raw (window_at raw current).transient_for (value + 1) in
    if current == 0 then value else rest

unfoldable pub depth : RawState → ℕ → ℕ
unfolding depth_loop
depth raw id = depth_loop (length raw.windows) raw (window_at raw id).transient_for 0

abbrev pub is_transient : RawWindow → Bool
is_transient window = not window.override_redirect && window.transient_for != 0

unfoldable pub transient_parent_first : RawState → List ℕ
unfolding ids_where depth
transient_parent_first raw =
    sort (λ left right. lex_lt (depth raw left ∷ left ∷ []) (depth raw right ∷ right ∷ []))
      (ids_where is_transient raw.windows)
