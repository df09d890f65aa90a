-- ===== src/Wm/Focus.antt =====
-- src/wm/policy_focus.cpp: which windows are visible, and which one has the focus.
pub mod Unique
pub mod Greatest
use glasswyrm.Prelude.{
  ℕ, List, [], ◌∷◌, Option, none, some, Bool, true, false, not, ◌&&◌, ◌||◌, ◌==◌, ◌!=◌,
  if◌then◌else◌, any_of, some_or,
}
use glasswyrm.Prelude.Map
use glasswyrm.Prelude.Map.{NatMap}
use glasswyrm.Prelude.Sort.{lex_lt}
use glasswyrm.Wm.Types.{
  AppliedState, TriState, RawWindow, RawState, WindowState, PolicyState, empty_state,
}
use glasswyrm.Wm.Lookup.{
  window_at, state_at, flag_set, input_disabled_flag, is_fullscreen, is_minimized,
  transient_parent_first,
}

-- The three passes of `apply_visibility`.
abbrev own_visibility : RawState → ℕ → WindowState → WindowState
own_visibility raw id state =
    let window = window_at raw id in
    record state {
      visible =
          window.wants_map && (window.override_redirect || not (is_minimized state.applied_state));
    }

hide_with_parents : List ℕ → NatMap WindowState → NatMap WindowState
hide_with_parents [] windows = windows
hide_with_parents (id ∷ ids) windows = hide_with_parents ids (
    Map.update {V = WindowState} id
      (λ s. record s {
        visible = s.visible && (some_or (Map.find s.transient_for windows) empty_state).visible;
      })
      windows)

abbrev fullscreen_eligibility : ℕ → WindowState → WindowState
fullscreen_eligibility id state = record state {
  fullscreen_eligible =
      if state.override_redirect
      then TriState.unknown
      else (if state.visible && is_fullscreen state.applied_state
          then TriState.granted
          else TriState.refused);
}

unfoldable pub apply_visibility : RawState → NatMap WindowState → NatMap WindowState
unfolding hide_with_parents
apply_visibility raw windows =
    Map.map_values fullscreen_eligibility
      (hide_with_parents (transient_parent_first raw) (Map.map_values (own_visibility raw) windows))

-- The windows that may have the focus.
unfoldable pub can_focus : NatMap WindowState → ℕ → RawWindow → Bool
can_focus windows id window =
    (some_or (Map.find id windows) empty_state).visible
    && not window.override_redirect
    && not (flag_set window.flags input_disabled_flag)

unfoldable pub focus_candidates : NatMap WindowState → NatMap RawWindow → List ℕ
unfolding can_focus
focus_candidates windows [] = []
focus_candidates windows ((id, window) ∷ m) =
    if can_focus windows id window
    then id ∷ focus_candidates windows m
    else focus_candidates windows m

abbrev pub applied_at : NatMap WindowState → ℕ → AppliedState
applied_at windows id = (some_or (Map.find id windows) empty_state).applied_state

unfoldable pub focus_rank : RawState → NatMap WindowState → Bool → ℕ → ℕ
focus_rank raw windows has_fullscreen id =
    if has_fullscreen && (window_at raw id).transient_for != 0
    then 2
    else (if is_fullscreen (applied_at windows id) then 1 else 0)

unfoldable pub focus_key : RawState → NatMap WindowState → Bool → Bool → ℕ → List ℕ
unfolding focus_rank
focus_key raw windows has_explicit has_fullscreen id =
    let window = window_at raw id in
    let rank = focus_rank raw windows has_fullscreen id in
    if has_explicit
    then rank ∷ window.focus_serial ∷ window.map_serial ∷ window.creation_serial ∷ window.window_id
      ∷ []
    else rank ∷ window.map_serial ∷ window.creation_serial ∷ window.window_id ∷ []

-- std::max_element: the first of the largest.
max_element : (ℕ → List ℕ) → ℕ → List ℕ → ℕ
max_element key best [] = best
max_element key best (id ∷ ids) =
    max_element key (if lex_lt (key best) (key id) then id else best) ids

-- The key by which `before` compares, for a list of candidates.
unfoldable pub selection_key : RawState → NatMap WindowState → List ℕ → ℕ → List ℕ
unfolding focus_key
selection_key raw windows candidates =
    focus_key raw windows (any_of (λ c. (window_at raw c).focus_serial != 0) candidates)
      (any_of (λ c. is_fullscreen (applied_at windows c)) candidates)

unfoldable pub select_focus : RawState → NatMap WindowState → List ℕ → Option ℕ
unfolding max_element selection_key
select_focus raw windows [] = none
select_focus raw windows (id ∷ ids) =
    some (max_element (selection_key raw windows (id ∷ ids)) id ids)

abbrev give_focus : Option ℕ → NatMap WindowState → NatMap WindowState
give_focus none windows = windows
give_focus (some id) windows =
    Map.update {V = WindowState} id (λ s. record s { focused = true }) windows

unfoldable pub apply_focus : RawState → NatMap WindowState → NatMap WindowState
unfolding select_focus
apply_focus raw windows =
    give_focus (select_focus raw windows (focus_candidates windows raw.windows)) windows

abbrev is_granted : TriState → Bool
is_granted TriState.granted = true
is_granted _ = false

abbrev presentation_eligibility : ℕ → WindowState → WindowState
presentation_eligibility id state = record state {
  direct_scanout_eligible =
      if not state.override_redirect && is_granted state.fullscreen_eligible && not state.focused
      then TriState.refused
      else TriState.unknown;
}

unfoldable pub apply_focus_and_visibility : RawState → PolicyState → PolicyState
apply_focus_and_visibility raw policy = record policy {
  windows =
      Map.map_values presentation_eligibility
        (apply_focus raw (apply_visibility raw policy.windows));
}
