-- ===== src/Geometry/Region.antt =====
-- src/core/geometry/region.hpp and region.cpp: a region that is a list of rectangles inside its bounds.
pub mod Covering
pub mod Histories
use glasswyrm.Prelude.{
  ℕ, zero, suc, Bool, true, false, List, [], ◌∷◌, ◌++◌, Option, none, some, ◌&&◌, ◌||◌,
  if◌then◌else◌, ltb, ◌==◌, length,
}
use glasswyrm.Prelude.Int.{ℤ, ◌-ℤ◌, ltb_ℤ, leb_ℤ, eqb_ℤ, max_ℤ, min_ℤ, bits_32}
use glasswyrm.Prelude.Sort.{sort}
use glasswyrm.Geometry.Rectangle.{Rectangle, right, bottom, intersect}
use glasswyrm.Geometry.Merging.{absorb}

abbrev pub maximum_rectangles : ℕ
maximum_rectangles = 1024

pub record Region : Type 0 where
  pub bounds : Rectangle
  pub rectangles : List Rectangle

unfoldable pub touches : Rectangle → Rectangle → Bool
touches l r =
    leb_ℤ l.x (right r) && (leb_ℤ r.x (right l) && (leb_ℤ l.y (bottom r) && leb_ℤ r.y (bottom l)))

-- The function `bounds` of the source.
unfoldable pub bounds_of : Rectangle → Rectangle → Rectangle
bounds_of l r =
    let x1 = min_ℤ l.x r.x in
    let y1 = min_ℤ l.y r.y in
    let x2 = max_ℤ (right l) (right r) in
    let y2 = max_ℤ (bottom l) (bottom r) in
    record { x = x1; y = y1; width = bits_32 (x2 -ℤ x1); height = bits_32 (y2 -ℤ y1) }

unfoldable pub merge_touching : Rectangle → Rectangle → Option Rectangle
merge_touching l r = if touches l r then some (bounds_of l r) else none

abbrev pub behind : Rectangle → Option (List Rectangle) → Option (List Rectangle)
behind r none = none
behind r (some rs) = some (r ∷ rs)

-- One round of the loop: the first pair that touches is merged; nothing if there is none.
unfoldable pub merge_first : List Rectangle → Option (List Rectangle)
merge_first [] = none
merge_first (r ∷ rs) = elim (absorb merge_touching r rs) [
  | some merged ↦ some (merged.0 ∷ merged.1)
  | none ↦ behind r (merge_first rs)
]

-- `while (changed)`: each round that changes the list leaves one rectangle less.
unfoldable pub merge_while : ℕ → List Rectangle → List Rectangle
merge_while zero rs = rs
merge_while (suc fuel) rs = elim (merge_first rs) [ none ↦ rs | some next ↦ merge_while fuel next ]

abbrev pub before : Rectangle → Rectangle → Bool
before l r =
    ltb_ℤ l.y r.y
    || (eqb_ℤ l.y r.y
        && (ltb_ℤ l.x r.x
            || (eqb_ℤ l.x r.x
                && (ltb l.height r.height || (l.height == r.height && ltb l.width r.width)))))

abbrev pub limited : Region → List Rectangle → List Rectangle
limited region rs = if ltb maximum_rectangles (length rs) then region.bounds ∷ [] else rs

unfoldable pub add_part : Option Rectangle → Region → Region
add_part none region = region
add_part (some clipped) region =
    let all = region.rectangles ++ (clipped ∷ []) in
    record region { rectangles = limited region (sort before (merge_while (length all) all)) }

unfoldable pub add : Rectangle → Region → Region
add rectangle region = add_part (intersect region.bounds rectangle) region
