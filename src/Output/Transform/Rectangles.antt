-- ===== src/Output/Transform/Rectangles.antt =====
-- src/output/model/transform.cpp: rectangles through a transform and back.
use glasswyrm.Prelude.{◌+◌, ◌*◌, ◌≤◌, ◌≡◌, some, true, false, ◌-◌, arith}
use glasswyrm.Output.Transform.{
  OutputTransform, normal, rotate_90, rotate_180, rotate_270, flipped, flipped_90, flipped_180,
  flipped_270, other, PhysicalExtent, PhysicalRectangle, transformed_physical_extent,
  valid_output_transform, transform_rectangle, inverse_transform_rectangle, transform_boundary,
  inverse_transform_boundary,
}
use glasswyrm.Output.Transform.Points.{IsU32}

abbrev pub Inside : PhysicalExtent → PhysicalRectangle → Type 0
Inside e r = (r.x + r.width ≤ e.width) × (r.y + r.height ≤ e.height)

-- For a valid transform and an extent of uint32_t: a rectangle inside the transformed extent has
-- an image of the same area inside the native extent, and the inverse gives the rectangle back.
pub inverse-transform_rectangle :
    (t : OutputTransform) (e : PhysicalExtent) (r : PhysicalRectangle)
    → IsU32 e
    → valid_output_transform t ≡ true
    → Inside (transformed_physical_extent e t) r
    → (s : PhysicalRectangle) × (transform_rectangle r e t ≡ some s)
      × Inside e s
      × (s.width * s.height ≡ r.width * r.height)
      × (inverse_transform_rectangle s e t ≡ some r)
unfolding transform_rectangle inverse_transform_rectangle transform_boundary
    inverse_transform_boundary
inverse-transform_rectangle normal e r h v w = (r, ground arith, w, omega arith, ground arith)
inverse-transform_rectangle rotate_90 e r h v w = (
  record { x = e.width - (r.y + r.height); y = r.x; width = r.height; height = r.width },
  ground arith,
  ground arith,
  omega arith,
  ground arith,
)
inverse-transform_rectangle rotate_180 e r h v w = (
  record {
    x = e.width - (r.x + r.width);
    y = e.height - (r.y + r.height);
    width = r.width;
    height = r.height;
  },
  ground arith,
  ground arith,
  omega arith,
  ground arith,
)
inverse-transform_rectangle rotate_270 e r h v w = (
  record { x = r.y; y = e.height - (r.x + r.width); width = r.height; height = r.width },
  ground arith,
  ground arith,
  omega arith,
  ground arith,
)
inverse-transform_rectangle flipped e r h v w = (
  record { x = e.width - (r.x + r.width); y = r.y; width = r.width; height = r.height },
  ground arith,
  ground arith,
  omega arith,
  ground arith,
)
inverse-transform_rectangle flipped_90 e r h v w = (
  record {
    x = e.width - (r.y + r.height);
    y = e.height - (r.x + r.width);
    width = r.height;
    height = r.width;
  },
  ground arith,
  ground arith,
  omega arith,
  ground arith,
)
inverse-transform_rectangle flipped_180 e r h v w = (
  record { x = r.x; y = e.height - (r.y + r.height); width = r.width; height = r.height },
  ground arith,
  ground arith,
  omega arith,
  ground arith,
)
inverse-transform_rectangle flipped_270 e r h v w = (
  record { x = r.y; y = r.x; width = r.height; height = r.width },
  ground arith,
  ground arith,
  omega arith,
  ground arith,
)
inverse-transform_rectangle (other n) e r h v w = absurd (no_other v)
  where
    no_other : false ≡ true → ⊥
    no_other q = cc
