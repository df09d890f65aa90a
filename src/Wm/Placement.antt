-- ===== src/Wm/Placement.antt =====
-- src/wm/policy_geometry.cpp and src/wm/policy_output.cpp: where windows go on the single work area,
-- when the snapshot lists no outputs.
pub mod Unfocused
use glasswyrm.Prelude.{
  ℕ, ◌+◌, ◌-◌, ◌*◌, ◌%◌, ◌^◌, min, List, [], ◌∷◌, Bool, true, false, not, ◌&&◌, ◌||◌, ◌==◌, ◌!=◌,
  if◌then◌else◌, some_or,
}
use glasswyrm.Prelude.Int.{to_int32, ℤ, pos, ◌+ℤ◌, ◌-ℤ◌, ltb_ℤ, half_ℤ}
use glasswyrm.Prelude.Map
use glasswyrm.Prelude.Sort.{sort, lex_lt}
use glasswyrm.Wm.Types.{
  WindowType, DecorationPreference, AppliedState, Context, RawWindow, RawState, WindowState,
  PolicyState, empty_state,
}
use glasswyrm.Wm.Lookup.{window_at, is_fullscreen, is_maximized, ids_where, transient_parent_first}

unfoldable pub applied_state : RawWindow → AppliedState
applied_state raw =
    if raw.override_redirect
    then AppliedState.normal
    else (if raw.minimized_requested
        then AppliedState.minimized
        else (if raw.fullscreen_requested
            then AppliedState.fullscreen
            else (if raw.maximized_requested then AppliedState.maximized else AppliedState.normal)))

prefers : DecorationPreference → WindowType → Bool
prefers DecorationPreference.undecorated _ = false
prefers DecorationPreference.decorated _ = true
prefers _ WindowType.utility = false
prefers _ WindowType.unknown = false
prefers _ _ = true

unfoldable pub decoration : RawWindow → AppliedState → Bool
unfolding prefers
decoration raw state =
    if raw.override_redirect || is_fullscreen state
    then false
    else prefers raw.decoration_preference raw.window_type

-- std::clamp, then the cast to int32_t.
unfoldable pub clamp_coordinate : ℤ → ℤ → ℤ → ℤ
unfolding to_int32
clamp_coordinate value low high =
    to_int32 (if ltb_ℤ value low then low else (if ltb_ℤ high value then high else value))

abbrev pub cascades : WindowType → Bool
cascades WindowType.normal = true
cascades WindowType.utility = true
cascades WindowType.unknown = true
cascades _ = false

abbrev is_cascade : RawWindow → Bool
is_cascade window =
    not window.override_redirect
    && window.transient_for == 0
    && window.wants_map
    && not window.fullscreen_requested
    && not window.maximized_requested
    && cascades window.window_type

number_from : ℕ → List ℕ → Map.NatMap ℕ
number_from index [] = []
number_from index (id ∷ ids) = (id, index) ∷ number_from (index + 1) ids

-- Each cascading window has its place in the order of creation. The map is only looked up.
unfoldable pub cascade_slots : RawState → Map.NatMap ℕ
unfolding number_from ids_where
cascade_slots raw = number_from 0 (
    sort
      (λ left right.
        lex_lt ((window_at raw left).creation_serial ∷ left ∷ [])
          ((window_at raw right).creation_serial ∷ right ∷ []))
      (ids_where is_cascade raw.windows))

-- uint32_t subtraction.
abbrev pub sub_32 : ℕ → ℕ → ℕ
sub_32 a b = (a + 2 ^ 32 - b) % 2 ^ 32

-- The offset of a cascading window along one axis.
unfoldable pub cascade_offset : ℕ → ℕ → ℤ
unfolding to_int32
cascade_offset slot span = to_int32 (pos (if span == 0 then 0 else slot * 32 % (span + 1)))

-- The position that `place_root` gives along one axis, for the extent that it leaves.
abbrev work_end : ℤ → ℕ → ℕ → ℤ
work_end work_origin work_extent extent = work_origin +ℤ pos work_extent -ℤ pos extent

unfoldable pub place_root : RawState → RawWindow → Map.NatMap ℕ → WindowState → WindowState
unfolding clamp_coordinate cascade_offset
place_root raw window slots state =
    let c = raw.context in
    let slot = some_or (Map.find window.window_id slots) 0 in
    if window.override_redirect
    then record state { final_x = window.requested_x; final_y = window.requested_y }
    else (if is_fullscreen state.applied_state || is_maximized state.applied_state
        then record state {
          final_x = c.work_x;
          final_y = c.work_y;
          final_width = c.work_width;
          final_height = c.work_height;
        }
        else (if window.transient_for == 0 && window.geometry_serial != 0
            then record state {
              final_x =
                  clamp_coordinate window.requested_x c.work_x
                    (work_end c.work_x c.work_width state.final_width);
              final_y =
                  clamp_coordinate window.requested_y c.work_y
                    (work_end c.work_y c.work_height state.final_height);
            }
            else (if window.transient_for == 0
                then record state {
                  final_x = c.work_x +ℤ cascade_offset slot (sub_32 c.work_width state.final_width);
                  final_y =
                      c.work_y +ℤ cascade_offset slot (sub_32 c.work_height state.final_height);
                }
                else state)))

-- The middle of the parent, kept inside the work area, along one axis.
unfoldable pub centered : ℤ → ℕ → ℕ → ℤ → ℕ → ℤ
unfolding clamp_coordinate
centered parent_origin parent_extent extent work_origin work_extent =
    clamp_coordinate (parent_origin +ℤ half_ℤ (pos parent_extent -ℤ pos extent)) work_origin
      (work_end work_origin work_extent extent)

abbrev center_in : Context → WindowState → WindowState → WindowState
center_in c parent state = record state {
  final_x = centered parent.final_x parent.final_width state.final_width c.work_x c.work_width;
  final_y = centered parent.final_y parent.final_height state.final_height c.work_y c.work_height;
}

unfoldable pub place_transient : RawState → ℕ → Map.NatMap WindowState → Map.NatMap WindowState
unfolding centered
place_transient raw id windows =
    let parent = some_or (Map.find (window_at raw id).transient_for windows) empty_state in
    Map.update id (center_in raw.context parent) windows

-- The state that the first loop builds for one window.
unfoldable pub initial_state : RawState → Map.NatMap ℕ → ℕ → RawWindow → WindowState
unfolding applied_state decoration place_root
initial_state raw slots id window =
    let state : WindowState = record empty_state {
      window_id = id;
      transient_for = window.transient_for;
      workspace_id = raw.context.workspace_id;
      window_type = window.window_type;
      applied_state = applied_state window;
      managed = not window.override_redirect;
      override_redirect = window.override_redirect;
      attention_requested = window.attention_requested;
      final_width =
          if window.override_redirect
          then window.requested_width
          else min window.requested_width raw.context.work_width;
      final_height =
          if window.override_redirect
          then window.requested_height
          else min window.requested_height raw.context.work_height;
    } in
    let placed = place_root raw window slots state in
    record placed { decoration_eligible = decoration window placed.applied_state }

unfoldable pub place_transients :
    RawState → List ℕ → Map.NatMap WindowState → Map.NatMap WindowState
unfolding place_transient
place_transients raw [] windows = windows
place_transients raw (id ∷ ids) windows = place_transients raw ids (place_transient raw id windows)

unfoldable pub apply_placement_and_fullscreen_geometry : RawState → PolicyState → PolicyState
unfolding place_transients initial_state cascade_slots transient_parent_first
apply_placement_and_fullscreen_geometry raw policy = record policy {
  windows =
      place_transients raw (transient_parent_first raw)
        (Map.map_values (initial_state raw (cascade_slots raw)) raw.windows);
}

unfoldable pub assign_outputs : RawState → PolicyState → PolicyState
assign_outputs raw policy = record policy {
  windows =
      Map.map_values {V = WindowState}
        (λ id state. record state { output_id = raw.context.output_id }) policy.windows;
}
