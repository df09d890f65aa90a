-- ===== src/Wm/MultiOutput/Unfocused.antt =====
-- src/wm/multi_output_engine.cpp: the geometry gives no window the focus.
use glasswyrm.Prelude.{ℕ, refl, List, [], ◌∷◌}
use glasswyrm.Prelude.Map.{NatMap, Everywhere, update-Everywhere, map_values-Everywhere}
use glasswyrm.Wm.Types.{RawState, WindowState, PolicyState}
use glasswyrm.Wm.Lookup.{transient_parent_first}
use glasswyrm.Wm.Focus.Unique.{IsUnfocused}
use glasswyrm.Wm.MultiOutput.{
  apply_multi_output_geometry, place_root_on, place_roots, place_transient_on, place_transients_on,
  unplaced_state, root_order,
}

place_roots-IsUnfocused :
    (raw : RawState) (ids : List ℕ) (windows : NatMap WindowState) (slots : NatMap ℕ)
    → Everywhere IsUnfocused windows
    → Everywhere IsUnfocused (place_roots raw ids windows slots)
unfolding place_roots place_root_on
place_roots-IsUnfocused raw [] windows slots u = u
place_roots-IsUnfocused raw (id ∷ ids) windows slots u =
    place_roots-IsUnfocused raw ids _ _ (update-Everywhere IsUnfocused id _ windows (λ v e. e) u)

place_transients_on-IsUnfocused :
    (raw : RawState) (ids : List ℕ) (windows : NatMap WindowState)
    → Everywhere IsUnfocused windows
    → Everywhere IsUnfocused (place_transients_on raw ids windows)
unfolding place_transients_on place_transient_on
place_transients_on-IsUnfocused raw [] windows u = u
place_transients_on-IsUnfocused raw (id ∷ ids) windows u =
    place_transients_on-IsUnfocused raw ids _
      (update-Everywhere IsUnfocused id _ windows (λ v e. e) u)

pub multi_output-IsUnfocused :
    (raw : RawState) (policy : PolicyState)
    → Everywhere IsUnfocused (apply_multi_output_geometry raw policy).windows
unfolding apply_multi_output_geometry unplaced_state
multi_output-IsUnfocused raw policy =
    place_transients_on-IsUnfocused raw (transient_parent_first raw) _ (
      place_roots-IsUnfocused raw (root_order raw) _ [] (
        map_values-Everywhere (λ k v. Unit {0}) IsUnfocused _ raw.windows (λ k v e. refl)
          (λ k v e. tt)))
