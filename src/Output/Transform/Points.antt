-- ===== src/Output/Transform/Points.antt =====
-- src/output/model/transform.cpp: `transform_boundary` and its inverse.
use glasswyrm.Prelude.{◌^◌, ◌≤◌, ◌<◌, ◌≡◌, some, false, true, ◌-◌, arith}
use glasswyrm.Output.Transform.{
  OutputTransform, normal, rotate_90, rotate_180, rotate_270, flipped, flipped_90, flipped_180,
  flipped_270, other, PhysicalExtent, PhysicalPoint, transformed_physical_extent,
  valid_output_transform, transform_boundary, inverse_transform_boundary,
}

abbrev pub IsU32 : PhysicalExtent → Type 0
IsU32 e = (e.width < 2 ^ 32) × (e.height < 2 ^ 32)

abbrev pub Within : PhysicalExtent → PhysicalPoint → Type 0
Within e p = (p.x ≤ e.width) × (p.y ≤ e.height)

-- For a valid transform and an extent of uint32_t: a boundary point of the transformed extent
-- has an image, which lies on or within the native extent and is taken back to the point by the
-- inverse.
inverse-transform_boundary :
    (t : OutputTransform) (e : PhysicalExtent) (p : PhysicalPoint)
    → IsU32 e
    → valid_output_transform t ≡ true
    → Within (transformed_physical_extent e t) p
    → (q : PhysicalPoint) × (transform_boundary p e t ≡ some q)
      × Within e q
      × (inverse_transform_boundary q e t ≡ some p)
unfolding transform_boundary inverse_transform_boundary
inverse-transform_boundary normal e p h v w = (p, ground arith, w, ground arith)
inverse-transform_boundary rotate_90 e p h v w =
    (record { x = e.width - p.y; y = p.x }, ground arith, ground arith, ground arith)
inverse-transform_boundary rotate_180 e p h v w =
    (record { x = e.width - p.x; y = e.height - p.y }, ground arith, ground arith, ground arith)
inverse-transform_boundary rotate_270 e p h v w =
    (record { x = p.y; y = e.height - p.x }, ground arith, ground arith, ground arith)
inverse-transform_boundary flipped e p h v w =
    (record { x = e.width - p.x; y = p.y }, ground arith, ground arith, ground arith)
inverse-transform_boundary flipped_90 e p h v w =
    (record { x = e.width - p.y; y = e.height - p.x }, ground arith, ground arith, ground arith)
inverse-transform_boundary flipped_180 e p h v w =
    (record { x = p.x; y = e.height - p.y }, ground arith, ground arith, ground arith)
inverse-transform_boundary flipped_270 e p h v w =
    (record { x = p.y; y = p.x }, ground arith, ground arith, ground arith)
inverse-transform_boundary (other n) e p h v w = absurd (no_other v)
  where
    no_other : false ≡ true → ⊥
    no_other q = cc

-- For an extent of uint32_t: where the inverse takes a native point to a point, the transform
-- takes that point back to it.
transform-inverse_boundary :
    (t : OutputTransform) (e : PhysicalExtent) (p : PhysicalPoint) {q : PhysicalPoint}
    → IsU32 e
    → inverse_transform_boundary p e t ≡ some q
    → transform_boundary q e t ≡ some p
unfolding transform_boundary inverse_transform_boundary
transform-inverse_boundary normal e p h s = ground arith
transform-inverse_boundary rotate_90 e p h s = ground arith
transform-inverse_boundary rotate_180 e p h s = ground arith
transform-inverse_boundary rotate_270 e p h s = ground arith
transform-inverse_boundary flipped e p h s = ground arith
transform-inverse_boundary flipped_90 e p h s = ground arith
transform-inverse_boundary flipped_180 e p h s = ground arith
transform-inverse_boundary flipped_270 e p h s = ground arith
transform-inverse_boundary (other n) e p h s = ground arith
