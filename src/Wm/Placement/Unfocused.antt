-- ===== src/Wm/Placement/Unfocused.antt =====
-- src/wm/policy_geometry.cpp and policy_output.cpp: the geometry gives no window the focus.
use glasswyrm.Prelude.{ℕ, ◌≡◌, refl, false, List, [], ◌∷◌, arith}
use glasswyrm.Prelude.Map.{NatMap, Everywhere, update-Everywhere, map_values-Everywhere}
use glasswyrm.Wm.Types.{RawWindow, RawState, WindowState, PolicyState}
use glasswyrm.Wm.Lookup.{transient_parent_first}
use glasswyrm.Wm.Focus.Unique.{IsUnfocused}
use glasswyrm.Wm.Placement.{
  apply_placement_and_fullscreen_geometry, assign_outputs, place_root, place_transient,
  place_transients, initial_state, cascade_slots,
}

place_root-IsUnfocused :
    (raw : RawState) (window : RawWindow) (slots : NatMap ℕ) (state : WindowState)
    → state.focused ≡ false
    → (place_root raw window slots state).focused ≡ false
unfolding place_root
place_root-IsUnfocused raw window slots state u = ground arith

initial_state-IsUnfocused :
    (raw : RawState) (slots : NatMap ℕ) (id : ℕ) (window : RawWindow)
    → IsUnfocused id (initial_state raw slots id window)
unfolding initial_state
initial_state-IsUnfocused raw slots id window = place_root-IsUnfocused raw window slots _ refl

place_transients-IsUnfocused :
    (raw : RawState) (ids : List ℕ) (windows : NatMap WindowState)
    → Everywhere IsUnfocused windows
    → Everywhere IsUnfocused (place_transients raw ids windows)
unfolding place_transients place_transient
place_transients-IsUnfocused raw [] windows u = u
place_transients-IsUnfocused raw (id ∷ ids) windows u =
    place_transients-IsUnfocused raw ids _
      (update-Everywhere IsUnfocused id _ windows (λ v e. ground arith) u)

pub placement-IsUnfocused :
    (raw : RawState) (policy : PolicyState)
    → Everywhere IsUnfocused
        (assign_outputs raw (apply_placement_and_fullscreen_geometry raw policy)).windows
unfolding assign_outputs apply_placement_and_fullscreen_geometry
placement-IsUnfocused raw policy =
    map_values-Everywhere IsUnfocused IsUnfocused _ _ (λ k v e. e)
      (place_transients-IsUnfocused raw (transient_parent_first raw) _ (
        map_values-Everywhere (λ k v. Unit {0}) IsUnfocused _ raw.windows
          (λ k v e. initial_state-IsUnfocused raw (cascade_slots raw) k v) (λ k v e. tt)))
