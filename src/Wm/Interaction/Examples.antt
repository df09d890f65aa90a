-- ===== src/Wm/Interaction/Examples.antt =====
-- src/wm/interactive_policy.cpp on a window that is moved and resized.
use glasswyrm.Prelude.{ℕ, ◌≡◌, ◌≤◌, refl, true, false, some, arith}
use glasswyrm.Prelude.Int.{pos, ◌+ℤ◌, ◌-ℤ◌}
use glasswyrm.Wm.Types.{maximum_window_extent}
use glasswyrm.Wm.Interaction.{
  InteractivePolicy, InteractionKind, InteractionBegin, InteractiveGeometry, PointerPosition,
  new_interaction, default_bindings, begin, motion, take_geometry_request, complete_geometry,
  finish, is_idle,
}
use glasswyrm.Wm.Interaction.Requests.{resize_request_bounds}
use glasswyrm.Wm.Interaction.Ending.{
  IsConsistent, after, begins, after-IsConsistent, wind_up, finish-wind_up,
}

abbrev geometry : InteractiveGeometry
geometry = record { x = pos 10; y = pos 20; width = 300; height = 200 }

abbrev pointer : ℕ → ℕ → PointerPosition
pointer x y = record { x = pos x; y = pos y }

abbrev request : InteractionKind → InteractionBegin
request kind = record {
  kind = kind;
  target = 7;
  button = 1;
  pointer = pointer 50 60;
  applied_geometry = geometry;
  managed = true;
  visible = true;
  direct_root = true;
  input_output = true;
}

abbrev dragged : InteractionKind → InteractivePolicy
dragged kind = motion (pointer 57 40) (begin (request kind) (new_interaction default_bindings)).0

abbrev moved : InteractiveGeometry
moved = record geometry { x = pos 17; y = pos 0 }

abbrev resized : InteractiveGeometry
resized = record geometry { width = 307; height = 180 }

resizes_it : (take_geometry_request (dragged InteractionKind.resize_bottom_right)).1 ≡ some resized
unfolding begin motion take_geometry_request glasswyrm.Wm.Interaction.geometry_at
    glasswyrm.Wm.Interaction.resize_extent ◌+ℤ◌ ◌-ℤ◌
resizes_it = refl

is_resize : (dragged InteractionKind.resize_bottom_right).kind ≡ InteractionKind.resize_bottom_right
unfolding begin motion
is_resize = refl

resize_request_bounds_example :
    (resized.x ≡ pos 10)
    × (resized.y ≡ pos 20)
    × (96 ≤ resized.width)
    × (resized.width ≤ maximum_window_extent)
    × (64 ≤ resized.height)
    × (resized.height ≤ maximum_window_extent)
unfolding begin motion
resize_request_bounds_example =
    resize_request_bounds (dragged InteractionKind.resize_bottom_right) resized is_resize
      (ground arith) (ground arith) resizes_it

fresh-IsConsistent : IsConsistent (new_interaction default_bindings)
fresh-IsConsistent = ground arith

after-IsConsistent_example :
    IsConsistent (after (begins (request InteractionKind.move)) (new_interaction default_bindings))
after-IsConsistent_example =
    after-IsConsistent (begins (request InteractionKind.move)) (new_interaction default_bindings)
      fresh-IsConsistent

drags : is_idle (dragged InteractionKind.move).kind ≡ false
unfolding begin motion
drags = refl

finish-wind_up_example :
    ((finish (wind_up geometry (pointer 9 9) (dragged InteractionKind.move))).1 ≡ true)
    × ((finish (wind_up geometry (pointer 9 9) (dragged InteractionKind.move))).0.kind
        ≡ InteractionKind.idle)
finish-wind_up_example =
    finish-wind_up (dragged InteractionKind.move) geometry (pointer 9 9) drags (ground arith)
      (ground arith)
