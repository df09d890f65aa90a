-- ===== src/Wm/Engine/Examples.antt =====
-- src/wm/policy_engine.cpp, policy_focus.cpp and policy_validation.cpp on two windows.
use glasswyrm.Prelude.{
  any_of, ◌!=◌, ℕ, suc, ◌≡◌, ◌≢◌, ◌↔◌, refl, Bool, true, false, List, [], ◌∷◌, Option, none, some,
  some_or, All, arith,
}
use glasswyrm.Prelude.Int.{pos}
use glasswyrm.Prelude.Map
use glasswyrm.Prelude.Map.{IsAscending}
use glasswyrm.Prelude.Sort.{lex_lt}
use glasswyrm.Wm.Types.{
  Context, RawWindow, RawState, WindowState, WindowType, DecorationPreference, StackMode, empty_raw,
  empty_state,
}
use glasswyrm.Wm.Validation.{transient_cycle}
use glasswyrm.Wm.Validation.Cycles.{Chain, transient_cycle_iff}
use glasswyrm.Wm.Focus.{select_focus, selection_key, applied_at}
use glasswyrm.Wm.Lookup.{window_at, is_fullscreen}
use glasswyrm.Wm.Focus.Unique.{HasFocusRights}
use glasswyrm.Wm.Focus.Greatest.{IsAmong, Precedes, select_focus_greatest}
use glasswyrm.Wm.Engine.{policy_of}
use glasswyrm.Wm.Engine.Focus.{policy_focus_unique, policy_focus_rights}

abbrev screen : Context
screen = record {
  root_window_id = 1;
  workspace_id = 1;
  output_id = 1;
  work_x = pos 0;
  work_y = pos 0;
  work_width = 800;
  work_height = 600;
  flags = 0;
}

abbrev window : RawWindow
window = record {
  window_id = 7;
  parent_window_id = 1;
  transient_for = 0;
  workspace_id = 1;
  requested_x = pos 20;
  requested_y = pos 30;
  requested_width = 200;
  requested_height = 100;
  border_width = 0;
  window_type = WindowType.normal;
  wants_map = true;
  override_redirect = false;
  decoration_preference = DecorationPreference.unknown;
  fullscreen_requested = false;
  maximized_requested = false;
  minimized_requested = false;
  attention_requested = false;
  creation_serial = 1;
  map_serial = 1;
  focus_serial = 1;
  flags = 0;
  geometry_serial = 0;
  stack_serial = 0;
  stack_sibling = 0;
  stack_mode = StackMode.unset;
}

abbrev snapshot : RawState
snapshot = record empty_raw {
  complete = true;
  has_context = true;
  context = screen;
  windows =
      (7, window)
      ∷ (9, record window { window_id = 9; creation_serial = 2; map_serial = 2; focus_serial = 2 })
      ∷ [];
}

abbrev state_of : ℕ → WindowState
state_of id = some_or (Map.find id (policy_of snapshot 3).windows) empty_state

has_state : Map.find 9 (policy_of snapshot 3).windows ≡ some (state_of 9)
unfolding policy_of Map.find Map.insert Map.update Map.map_values
    glasswyrm.Wm.Ordering.apply_stacking_and_transient_ordering
    glasswyrm.Wm.Ordering.number_stacking mathlib.Core.List.flat_map
    glasswyrm.Wm.Ordering.managed_roots glasswyrm.Wm.Ordering.overrides
    glasswyrm.Wm.Ordering.stacking_order glasswyrm.Wm.Ordering.apply_restack
    glasswyrm.Wm.Ordering.restack_loop glasswyrm.Wm.Ordering.restack_one glasswyrm.Prelude.keep_if
    glasswyrm.Prelude.any_of glasswyrm.Prelude.Sort.sort glasswyrm.Prelude.Sort.place lex_lt
    glasswyrm.Wm.Focus.apply_focus_and_visibility glasswyrm.Wm.Focus.apply_focus
    glasswyrm.Wm.Focus.focus_candidates glasswyrm.Wm.Focus.can_focus
    glasswyrm.Wm.Focus.apply_visibility select_focus selection_key
    glasswyrm.Wm.Lookup.transient_parent_first glasswyrm.Wm.Lookup.depth
    glasswyrm.Wm.Lookup.depth_loop glasswyrm.Wm.Lookup.ids_where glasswyrm.Wm.Engine.geometry_policy
    glasswyrm.Wm.Placement.assign_outputs
    glasswyrm.Wm.Placement.apply_placement_and_fullscreen_geometry
    glasswyrm.Wm.Placement.place_transients glasswyrm.Wm.Placement.initial_state
    glasswyrm.Wm.Placement.cascade_slots
has_state = refl

has_focus : (state_of 9).focused ≡ true
unfolding policy_of Map.find Map.insert Map.update Map.map_values
    glasswyrm.Wm.Ordering.apply_stacking_and_transient_ordering
    glasswyrm.Wm.Ordering.number_stacking mathlib.Core.List.flat_map
    glasswyrm.Wm.Ordering.managed_roots glasswyrm.Wm.Ordering.overrides
    glasswyrm.Wm.Ordering.stacking_order glasswyrm.Wm.Ordering.apply_restack
    glasswyrm.Wm.Ordering.restack_loop glasswyrm.Wm.Ordering.restack_one glasswyrm.Prelude.keep_if
    glasswyrm.Prelude.any_of glasswyrm.Prelude.Sort.sort glasswyrm.Prelude.Sort.place lex_lt
    glasswyrm.Wm.Focus.apply_focus_and_visibility glasswyrm.Wm.Focus.apply_focus
    glasswyrm.Wm.Focus.focus_candidates glasswyrm.Wm.Focus.can_focus
    glasswyrm.Wm.Focus.apply_visibility select_focus selection_key
    glasswyrm.Wm.Lookup.transient_parent_first glasswyrm.Wm.Lookup.depth
    glasswyrm.Wm.Lookup.depth_loop glasswyrm.Wm.Lookup.ids_where glasswyrm.Wm.Engine.geometry_policy
    glasswyrm.Wm.Placement.assign_outputs
    glasswyrm.Wm.Placement.apply_placement_and_fullscreen_geometry
    glasswyrm.Wm.Placement.place_transients glasswyrm.Wm.Placement.initial_state
    glasswyrm.Wm.Placement.cascade_slots
has_focus = refl

policy_focus_unique_example : ◌≡◌ {A = ℕ} 9 9
policy_focus_unique_example =
    policy_focus_unique snapshot 3 9 9 (state_of 9) (state_of 9) has_state has_state has_focus
      has_focus

policy_focus_rights_example : HasFocusRights snapshot 9 (state_of 9)
policy_focus_rights_example =
    policy_focus_rights snapshot 3 9 (state_of 9) (ground arith) has_state has_focus

selects : select_focus snapshot (policy_of snapshot 3).windows (7 ∷ 9 ∷ []) ≡ some 9
unfolding policy_of Map.find Map.insert Map.update Map.map_values
    glasswyrm.Wm.Ordering.apply_stacking_and_transient_ordering
    glasswyrm.Wm.Ordering.number_stacking mathlib.Core.List.flat_map
    glasswyrm.Wm.Ordering.managed_roots glasswyrm.Wm.Ordering.overrides
    glasswyrm.Wm.Ordering.stacking_order glasswyrm.Wm.Ordering.apply_restack
    glasswyrm.Wm.Ordering.restack_loop glasswyrm.Wm.Ordering.restack_one glasswyrm.Prelude.keep_if
    glasswyrm.Prelude.any_of glasswyrm.Prelude.Sort.sort glasswyrm.Prelude.Sort.place lex_lt
    glasswyrm.Wm.Focus.apply_focus_and_visibility glasswyrm.Wm.Focus.apply_focus
    glasswyrm.Wm.Focus.focus_candidates glasswyrm.Wm.Focus.can_focus
    glasswyrm.Wm.Focus.apply_visibility select_focus selection_key
    glasswyrm.Wm.Lookup.transient_parent_first glasswyrm.Wm.Lookup.depth
    glasswyrm.Wm.Lookup.depth_loop glasswyrm.Wm.Lookup.ids_where glasswyrm.Wm.Engine.geometry_policy
    glasswyrm.Wm.Placement.assign_outputs
    glasswyrm.Wm.Placement.apply_placement_and_fullscreen_geometry
    glasswyrm.Wm.Placement.place_transients glasswyrm.Wm.Placement.initial_state
    glasswyrm.Wm.Placement.cascade_slots
selects = refl

select_focus_greatest_example :
    IsAmong (7 ∷ 9 ∷ []) 9
    × All
        (Precedes snapshot
          (policy_of snapshot 3).windows
          (any_of (λ c. (window_at snapshot c).focus_serial != 0) (7 ∷ 9 ∷ []))
          (any_of (λ c. is_fullscreen (applied_at (policy_of snapshot 3).windows c)) (7 ∷ 9 ∷ []))
          9)
        (7 ∷ 9 ∷ [])
select_focus_greatest_example =
    select_focus_greatest snapshot (policy_of snapshot 3).windows (7 ∷ 9 ∷ []) 9 selects

transient_cycle_iff_example :
    (transient_cycle snapshot 7 ≡ false) ↔ ((n : ℕ) × Chain snapshot.windows 7 n)
transient_cycle_iff_example = transient_cycle_iff snapshot 7
