-- ===== src/Wm/Interaction/Requests.antt =====
-- src/wm/interactive_policy.cpp: the geometry requests of a move and of a resize.
use glasswyrm.Prelude.{ℕ, ◌-◌, ◌^◌, ◌≤◌, ◌≡◌, true, none, some, arith}
use glasswyrm.Prelude.Int.{ℤ, pos, negsuc, ◌+ℤ◌, ◌-ℤ◌, ◌≤ℤ◌, +ℤ_parts}
use glasswyrm.Wm.Types.{maximum_window_extent}
use glasswyrm.Wm.Interaction.{
  InteractionKind, InteractivePolicy, InteractiveGeometry, PointerPosition, take_geometry_request,
  complete_geometry, geometry_at, motion, add_coordinate, resize_extent, same_pointer,
}

resize_extent_bounds :
    (origin : ℕ) (delta : ℤ) (minimum : ℕ)
    → minimum ≤ maximum_window_extent
    → (minimum ≤ resize_extent origin delta minimum)
      × (resize_extent origin delta minimum ≤ maximum_window_extent)
unfolding resize_extent
resize_extent_bounds origin delta minimum h = ground (arith, +ℤ_parts (pos origin) delta)

-- A requested geometry of a resize keeps the position, and its extents are between the bindings'
-- minimum and 16384, when these minimums are at most 16384.
pub resize_request_bounds :
    (s : InteractivePolicy) (g : InteractiveGeometry)
    → s.kind ≡ InteractionKind.resize_bottom_right
    → s.bindings.minimum_width ≤ maximum_window_extent
    → s.bindings.minimum_height ≤ maximum_window_extent
    → (take_geometry_request s).1 ≡ some g
    → (g.x ≡ s.initial_geometry.x)
      × (g.y ≡ s.initial_geometry.y)
      × (s.bindings.minimum_width ≤ g.width)
      × (g.width ≤ maximum_window_extent)
      × (s.bindings.minimum_height ≤ g.height)
      × (g.height ≤ maximum_window_extent)
unfolding take_geometry_request geometry_at
resize_request_bounds s g k w h e = ground (
  arith,
  resize_extent_bounds s.initial_geometry.width (s.latest_pointer.x -ℤ s.initial_pointer.x)
      s.bindings.minimum_width,
  resize_extent_bounds s.initial_geometry.height (s.latest_pointer.y -ℤ s.initial_pointer.y)
      s.bindings.minimum_height,
)

abbrev pub IsInt32 : ℤ → Type 0
IsInt32 a = (negsuc (2 ^ 31 - 1) ≤ℤ a) × (a ≤ℤ pos (2 ^ 31 - 1))

-- The origin moved by the way of the pointer, where that is an int32_t.
move_exact :
    (origin from to : ℤ)
    → IsInt32 (origin +ℤ (to -ℤ from))
    → add_coordinate origin (to -ℤ from) ≡ origin +ℤ (to -ℤ from)
unfolding add_coordinate
move_exact origin from to h = ground arith

-- A requested geometry of a move keeps the extents and is at the initial position moved by the way of
-- the pointer, where these sums are int32_t.
move_request :
    (s : InteractivePolicy) (g : InteractiveGeometry)
    → s.kind ≡ InteractionKind.move
    → IsInt32 (s.initial_geometry.x +ℤ (s.latest_pointer.x -ℤ s.initial_pointer.x))
    → IsInt32 (s.initial_geometry.y +ℤ (s.latest_pointer.y -ℤ s.initial_pointer.y))
    → (take_geometry_request s).1 ≡ some g
    → (g.width ≡ s.initial_geometry.width)
      × (g.height ≡ s.initial_geometry.height)
      × (g.x ≡ s.initial_geometry.x +ℤ (s.latest_pointer.x -ℤ s.initial_pointer.x))
      × (g.y ≡ s.initial_geometry.y +ℤ (s.latest_pointer.y -ℤ s.initial_pointer.y))
unfolding take_geometry_request geometry_at
move_request s g k a b e = ground (
  arith,
  move_exact s.initial_geometry.x s.initial_pointer.x s.latest_pointer.x,
  move_exact s.initial_geometry.y s.initial_pointer.y s.latest_pointer.y,
)

same_pointer_refl : (p : PointerPosition) → same_pointer p p ≡ true
same_pointer_refl p = ground arith

-- After a request, none is given for any motion until the geometry of that one is completed, and then
-- none for the same pointer again.
one_request_at_a_time :
    (s : InteractivePolicy) (g applied : InteractiveGeometry) (p : PointerPosition)
    → (take_geometry_request s).1 ≡ some g
    → ((take_geometry_request (motion p (take_geometry_request s).0)).1 ≡ none)
      × ((take_geometry_request (complete_geometry applied (take_geometry_request s).0).0).1 ≡ none)
unfolding take_geometry_request complete_geometry motion
one_request_at_a_time s g applied p e = ground (arith, same_pointer_refl s.latest_pointer)
