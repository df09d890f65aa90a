-- ===== src/Wm/MultiOutput.antt =====
-- src/wm/multi_output_engine.cpp: placement when the snapshot lists outputs.
pub mod Unfocused
use glasswyrm.Prelude.{
  ℕ, ◌+◌, min, List, [], ◌∷◌, Bool, true, false, not, ◌&&◌, ◌||◌, ◌==◌, if◌then◌else◌, some_or,
}
use glasswyrm.Prelude.Int.{to_int32, pos, ◌+ℤ◌, ◌-ℤ◌, half_ℤ}
use glasswyrm.Prelude.Map
use glasswyrm.Prelude.Map.{NatMap}
use glasswyrm.Prelude.Sort.{sort, lex_lt}
use glasswyrm.Wm.Types.{
  AppliedState, Rectangle, OutputContext, WindowOutputHint, RawWindow, RawState, WindowState,
  PolicyState, empty_state, empty_hint,
}
use glasswyrm.Wm.Lookup.{window_at, is_fullscreen, is_maximized, ids_where, transient_parent_first}
use glasswyrm.Wm.Placement.{applied_state, decoration, cascades}
use glasswyrm.Wm.Outputs.{
  enabled, select_output, initial_placement, fullscreen_geometry, maximize_geometry,
  retain_visible_pixel,
}

abbrev requested_geometry : RawWindow → Rectangle
requested_geometry window = record {
  x = window.requested_x;
  y = window.requested_y;
  width = window.requested_width;
  height = window.requested_height;
}

abbrev hint_for : RawState → ℕ → WindowOutputHint
hint_for raw id = some_or (Map.find id raw.output_hints) empty_hint

first_enabled : NatMap OutputContext → ℕ
first_enabled [] = 0
first_enabled ((id, output) ∷ outputs) = if output.enabled then id else first_enabled outputs

initial_output : RawState → WindowOutputHint → ℕ
unfolding first_enabled
initial_output raw hint =
    if enabled raw.outputs hint.preferred_output_id
    then hint.preferred_output_id
    else (if enabled raw.outputs raw.context.output_id
        then raw.context.output_id
        else first_enabled raw.outputs)

is_normal : AppliedState → Bool
is_normal AppliedState.normal = true
is_normal _ = false

cascade_candidate : RawWindow → AppliedState → Bool
unfolding is_normal
cascade_candidate window state =
    not window.override_redirect
    && window.transient_for == 0
    && window.geometry_serial == 0
    && is_normal state
    && cascades window.window_type

abbrev apply_geometry : Rectangle → WindowState → WindowState
apply_geometry geometry state = record state {
  final_x = geometry.x;
  final_y = geometry.y;
  final_width = geometry.width;
  final_height = geometry.height;
}

assign_root : RawState → RawWindow → WindowState → WindowOutputHint → ℕ
unfolding cascade_candidate initial_output
assign_root raw window state hint =
    if cascade_candidate window state.applied_state
    then initial_output raw hint
    else select_output raw.outputs raw.context.output_id (record {
      geometry = requested_geometry window;
      inherited_output_id = 0;
      previous_output_id = hint.previous_output_id;
      preferred_output_id = hint.preferred_output_id;
      retain_previous = is_fullscreen state.applied_state || is_maximized state.applied_state;
    })

abbrev empty_rectangle : Rectangle
empty_rectangle = record { x = pos 0; y = pos 0; width = 0; height = 0 }

-- `raw.outputs.at(id)`, which a validated snapshot never misses.
abbrev output_at : RawState → ℕ → OutputContext
output_at raw id = some_or (Map.find id raw.outputs) (record {
  output_id = 0;
  logical = empty_rectangle;
  work = empty_rectangle;
  scale_numerator = 1;
  scale_denominator = 1;
  transform = 0;
  enabled = false;
  primary = false;
  flags = 0;
})

root_geometry : RawState → RawWindow → WindowState → ℕ → ℕ → Rectangle
root_geometry raw window state output_id cascade_slot =
    let output = output_at raw output_id in
    if is_fullscreen state.applied_state
    then fullscreen_geometry output
    else (if is_maximized state.applied_state
        then maximize_geometry output
        else (if window.override_redirect
            then requested_geometry window
            else (if window.geometry_serial == 0
                then initial_placement output window.requested_width window.requested_height
                    cascade_slot
                else retain_visible_pixel raw.outputs output_id (requested_geometry window))))

abbrev is_root : RawWindow → Bool
is_root window = window.override_redirect || window.transient_for == 0

root_order : RawState → List ℕ
unfolding ids_where
root_order raw =
    sort
      (λ left right.
        lex_lt ((window_at raw left).creation_serial ∷ left ∷ [])
          ((window_at raw right).creation_serial ∷ right ∷ []))
      (ids_where is_root raw.windows)

-- One round of the loop over the roots. `slots` counts the windows cascaded on each output.
place_root_on : RawState → ℕ → NatMap WindowState → NatMap ℕ → NatMap WindowState × NatMap ℕ
unfolding assign_root root_geometry cascade_candidate
place_root_on raw id windows slots =
    let window = window_at raw id in
    let state = some_or (Map.find id windows) empty_state in
    let output_id = assign_root raw window state (hint_for raw id) in
    let counted = cascade_candidate window state.applied_state && window.wants_map in
    let next = some_or (Map.find output_id slots) 0 in
    let slot = if counted then next else 0 in
    (
      Map.update {V = WindowState} id
          (λ s.
            apply_geometry (root_geometry raw window state output_id slot)
              (record s { output_id = output_id }))
          windows,
      if counted then Map.insert output_id (next + 1) slots else slots,
    )

place_roots : RawState → List ℕ → NatMap WindowState → NatMap ℕ → NatMap WindowState
unfolding place_root_on
place_roots raw [] windows slots = windows
place_roots raw (id ∷ ids) windows slots =
    let (windows', slots') = place_root_on raw id windows slots in
    place_roots raw ids windows' slots'

transient_geometry : RawState → RawWindow → WindowState → WindowState → Rectangle
transient_geometry raw window parent state =
    let output = output_at raw parent.output_id in
    let w = min window.requested_width output.work.width in
    let h = min window.requested_height output.work.height in
    if is_fullscreen state.applied_state
    then fullscreen_geometry output
    else (if is_maximized state.applied_state
        then maximize_geometry output
        else retain_visible_pixel raw.outputs parent.output_id (record {
          x = to_int32 (parent.final_x +ℤ half_ℤ (pos parent.final_width -ℤ pos w));
          y = to_int32 (parent.final_y +ℤ half_ℤ (pos parent.final_height -ℤ pos h));
          width = w;
          height = h;
        }))

place_transient_on : RawState → ℕ → NatMap WindowState → NatMap WindowState
unfolding transient_geometry
place_transient_on raw id windows =
    let window = window_at raw id in
    let parent = some_or (Map.find window.transient_for windows) empty_state in
    Map.update {V = WindowState} id
      (λ s.
        apply_geometry (transient_geometry raw window parent s)
          (record s { output_id = parent.output_id }))
      windows

place_transients_on : RawState → List ℕ → NatMap WindowState → NatMap WindowState
unfolding place_transient_on
place_transients_on raw [] windows = windows
place_transients_on raw (id ∷ ids) windows =
    place_transients_on raw ids (place_transient_on raw id windows)

-- The state that the first loop builds for one window.
unplaced_state : RawState → ℕ → RawWindow → WindowState
unplaced_state raw id window = record empty_state {
  window_id = id;
  transient_for = window.transient_for;
  workspace_id = raw.context.workspace_id;
  window_type = window.window_type;
  applied_state = applied_state window;
  managed = not window.override_redirect;
  override_redirect = window.override_redirect;
  attention_requested = window.attention_requested;
  decoration_eligible = decoration window (applied_state window);
}

unfoldable pub apply_multi_output_geometry : RawState → PolicyState → PolicyState
unfolding unplaced_state place_roots place_transients_on root_order
apply_multi_output_geometry raw policy = record policy {
  outputs = raw.outputs;
  output_hints = raw.output_hints;
  windows =
      place_transients_on raw (transient_parent_first raw)
        (place_roots raw (root_order raw) (Map.map_values (unplaced_state raw) raw.windows) []);
}
