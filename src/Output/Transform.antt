-- ===== src/Output/Transform.antt =====
-- src/output/model/transform.cpp: boundary points and rectangles of an output, from transformed to
-- native coordinates and back. A coordinate is a uint32_t; `other` is an out-of-range enum value.
pub mod Points
pub mod Rectangles
use glasswyrm.Prelude.{
  ℕ, ◌+◌, ◌-◌, ◌%◌, ◌^◌, ◌≤◌, ◌<◌, min, max, Bool, true, false, not, ◌&&◌, ◌||◌, Option, none, some,
  leb, if◌then◌else◌,
}

pub data OutputTransform : Type 0 where
  normal rotate_90 rotate_180 rotate_270 : OutputTransform
  flipped flipped_90 flipped_180 flipped_270 : OutputTransform
  other : ℕ → OutputTransform

pub record PhysicalExtent : Type 0 where
  pub width : ℕ
  pub height : ℕ

pub record PhysicalPoint : Type 0 where
  pub x : ℕ
  pub y : ℕ

pub record PhysicalRectangle : Type 0 where
  pub x : ℕ
  pub y : ℕ
  pub width : ℕ
  pub height : ℕ

-- uint32_t sums and differences.
abbrev pub add_32 : ℕ → ℕ → ℕ
add_32 a b = (a + b) % 2 ^ 32

abbrev pub sub_32 : ℕ → ℕ → ℕ
sub_32 a b = (a + 2 ^ 32 - b) % 2 ^ 32

unfoldable pub valid_output_transform : OutputTransform → Bool
valid_output_transform (other n) = false
valid_output_transform _ = true

unfoldable pub transform_swaps_axes : OutputTransform → Bool
transform_swaps_axes rotate_90 = true
transform_swaps_axes rotate_270 = true
transform_swaps_axes flipped_90 = true
transform_swaps_axes flipped_270 = true
transform_swaps_axes _ = false

abbrev swapped : PhysicalExtent → PhysicalExtent
swapped e = record { width = e.height; height = e.width }

unfoldable pub transformed_physical_extent : PhysicalExtent → OutputTransform → PhysicalExtent
unfolding valid_output_transform transform_swaps_axes
transformed_physical_extent e t =
    if not (valid_output_transform t)
    then record { width = 0; height = 0 }
    else (if transform_swaps_axes t then swapped e else e)

contains_boundary : PhysicalExtent → PhysicalPoint → Bool
contains_boundary e p = leb p.x e.width && leb p.y e.height

-- The sums are taken in 64 bits.
contains_rectangle : PhysicalExtent → PhysicalRectangle → Bool
contains_rectangle e r = leb (r.x + r.width) e.width && leb (r.y + r.height) e.height

abbrev point : ℕ → ℕ → Option PhysicalPoint
point a b = some (record { x = a; y = b })

-- The switch of `transform_boundary`.
transformed_point : OutputTransform → PhysicalExtent → ℕ → ℕ → Option PhysicalPoint
transformed_point normal e u v = point u v
transformed_point rotate_90 e u v = point (sub_32 e.width v) u
transformed_point rotate_180 e u v = point (sub_32 e.width u) (sub_32 e.height v)
transformed_point rotate_270 e u v = point v (sub_32 e.height u)
transformed_point flipped e u v = point (sub_32 e.width u) v
transformed_point flipped_90 e u v = point (sub_32 e.width v) (sub_32 e.height u)
transformed_point flipped_180 e u v = point u (sub_32 e.height v)
transformed_point flipped_270 e u v = point v u
transformed_point (other n) e u v = none

-- The switch of `inverse_transform_boundary`.
inverse_point : OutputTransform → PhysicalExtent → ℕ → ℕ → Option PhysicalPoint
inverse_point normal e x y = point x y
inverse_point rotate_90 e x y = point y (sub_32 e.width x)
inverse_point rotate_180 e x y = point (sub_32 e.width x) (sub_32 e.height y)
inverse_point rotate_270 e x y = point (sub_32 e.height y) x
inverse_point flipped e x y = point (sub_32 e.width x) y
inverse_point flipped_90 e x y = point (sub_32 e.height y) (sub_32 e.width x)
inverse_point flipped_180 e x y = point x (sub_32 e.height y)
inverse_point flipped_270 e x y = point y x
inverse_point (other n) e x y = none

pub transform_boundary : PhysicalPoint → PhysicalExtent → OutputTransform → Option PhysicalPoint
unfolding valid_output_transform contains_boundary transformed_physical_extent transformed_point
transform_boundary p e t =
    if not (valid_output_transform t) || not (contains_boundary (transformed_physical_extent e t) p)
    then none
    else transformed_point t e p.x p.y

unfoldable pub inverse_transform_boundary :
    PhysicalPoint → PhysicalExtent → OutputTransform → Option PhysicalPoint
unfolding valid_output_transform contains_boundary inverse_point
inverse_transform_boundary p e t =
    if not (valid_output_transform t) || not (contains_boundary e p)
    then none
    else inverse_point t e p.x p.y

infixl 5 ◌>>=◌
abbrev ◌>>=◌ : {A B : Type 0} → Option A → (A → Option B) → Option B
none >>= f = none
some a >>= f = f a

abbrev min_of : ℕ → ℕ → ℕ → ℕ → ℕ
min_of a b c d = min (min a b) (min c d)

abbrev max_of : ℕ → ℕ → ℕ → ℕ → ℕ
max_of a b c d = max (max a b) (max c d)

map_rectangle_corners :
    PhysicalRectangle → (PhysicalPoint → Option PhysicalPoint) → Option PhysicalRectangle
map_rectangle_corners r mapper = do
  let x1 = add_32 r.x r.width
  let y1 = add_32 r.y r.height
  a ← mapper (record { x = r.x; y = r.y })
  b ← mapper (record { x = x1; y = r.y })
  c ← mapper (record { x = r.x; y = y1 })
  d ← mapper (record { x = x1; y = y1 })
  let left = min_of a.x b.x c.x d.x
  let top = min_of a.y b.y c.y d.y
  some (record {
    x = left;
    y = top;
    width = sub_32 (max_of a.x b.x c.x d.x) left;
    height = sub_32 (max_of a.y b.y c.y d.y) top;
  })

pub transform_rectangle :
    PhysicalRectangle → PhysicalExtent → OutputTransform → Option PhysicalRectangle
unfolding map_rectangle_corners contains_rectangle
transform_rectangle r e t =
    if not (valid_output_transform t)
      || not (contains_rectangle (transformed_physical_extent e t) r)
    then none
    else map_rectangle_corners r (λ p. transform_boundary p e t)

pub inverse_transform_rectangle :
    PhysicalRectangle → PhysicalExtent → OutputTransform → Option PhysicalRectangle
unfolding map_rectangle_corners contains_rectangle
inverse_transform_rectangle r e t =
    if not (valid_output_transform t) || not (contains_rectangle e r)
    then none
    else map_rectangle_corners r (λ p. inverse_transform_boundary p e t)
