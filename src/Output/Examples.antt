-- ===== src/Output/Examples.antt =====
-- src/output/model on a panel of 1920 by 1080 that stands on its side, with a scale of 5/4.
use glasswyrm.Prelude.{ℕ, ◌≡◌, ◌≤◌, ◌*◌, refl, Bool, true, false, Option, some, arith}
use glasswyrm.Output.Transform.{
  rotate_90, PhysicalExtent, PhysicalRectangle, transform_rectangle, inverse_transform_rectangle,
  valid_output_transform, transformed_physical_extent,
}
use glasswyrm.Output.Transform.Points.{IsU32}
use glasswyrm.Output.Transform.Rectangles.{Inside, inverse-transform_rectangle}
use glasswyrm.Output.Scale.{
  RationalScale, reduce_scale, is_reduced, valid_output_scale, derive_logical_dimension,
}
use glasswyrm.Output.Scale.Laws.{reduce_scale-is_reduced, derive_logical_dimension_least}

abbrev panel : PhysicalExtent
panel = record { width = 1920; height = 1080 }

panel-IsU32 : IsU32 panel
panel-IsU32 = ground arith

abbrev box : PhysicalRectangle
box = record { x = 100; y = 200; width = 300; height = 400 }

is_valid : valid_output_transform rotate_90 ≡ true
unfolding valid_output_transform
is_valid = refl

box-Inside : Inside (transformed_physical_extent panel rotate_90) box
unfolding transformed_physical_extent
box-Inside = ground arith

inverse-transform_rectangle_example :
    (s : PhysicalRectangle) × (transform_rectangle box panel rotate_90 ≡ some s)
    × Inside panel s
    × (s.width * s.height ≡ box.width * box.height)
    × (inverse_transform_rectangle s panel rotate_90 ≡ some box)
inverse-transform_rectangle_example =
    inverse-transform_rectangle rotate_90 panel box panel-IsU32 is_valid box-Inside

abbrev zoom : RationalScale
zoom = record { numerator = 5; denominator = 4 }

reduce_scale-is_reduced_example :
    (s : RationalScale) × (reduce_scale 120 96 ≡ some s)
    × (is_reduced s ≡ true)
    × (120 * s.denominator ≡ s.numerator * 96)
reduce_scale-is_reduced_example = reduce_scale-is_reduced 120 96 (ground arith) (ground arith)

zoom_is_valid : valid_output_scale zoom 8 ≡ true
unfolding valid_output_scale glasswyrm.Prelude.Gcd.gcd
zoom_is_valid = refl

derive_logical_dimension_least_example :
    (r : ℕ) × (derive_logical_dimension 1921 zoom ≡ some r)
    × (1921 * zoom.denominator ≤ r * zoom.numerator)
    × (r ≤ 1921)
    × (r ≤ 1537)
derive_logical_dimension_least_example =
    derive_logical_dimension_least 1921 8 1537 zoom (ground arith) zoom_is_valid (ground arith)
