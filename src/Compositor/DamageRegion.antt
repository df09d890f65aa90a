-- ===== src/Compositor/DamageRegion.antt =====
-- src/compositor/damage_region.hpp and damage_region.cpp.
pub mod Touching
pub mod Covering
pub mod Histories
use glasswyrm.Prelude.{
  ℕ, zero, suc, Bool, true, false, List, [], ◌∷◌, ◌++◌, Option, none, some, ◌&&◌, ◌||◌, not,
  if◌then◌else◌, ltb, ◌==◌, length,
}
use glasswyrm.Prelude.Int.{ltb_ℤ, eqb_ℤ}
use glasswyrm.Prelude.Sort.{sort}
use glasswyrm.Geometry.Rectangle.{Rectangle}
use glasswyrm.Compositor.Rectangle.{
  is_empty, has_valid_extents, intersection, overlaps_or_is_compatibly_adjacent, bounding_union,
}

abbrev pub maximum_rectangles : ℕ
maximum_rectangles = 4096

pub record DamageRegion : Type 0 where
  pub output_bounds : Rectangle
  pub rectangles : List Rectangle
  pub full_output : Bool

unfoldable pub new : Rectangle → DamageRegion
new output_bounds = record { output_bounds = output_bounds; rectangles = []; full_output = false }

unfoldable pub add_full_output : DamageRegion → DamageRegion
add_full_output d = record d {
  rectangles =
      if not (is_empty d.output_bounds) && has_valid_extents d.output_bounds
      then d.output_bounds ∷ []
      else [];
  full_output = true;
}

abbrev pub before : Rectangle → Rectangle → Bool
before l r =
    if not (eqb_ℤ l.y r.y)
    then ltb_ℤ l.y r.y
    else (if not (eqb_ℤ l.x r.x)
        then ltb_ℤ l.x r.x
        else (if not (l.height == r.height) then ltb l.height r.height else ltb l.width r.width))

unfoldable pub normalize : DamageRegion → DamageRegion
normalize d = record d { rectangles = sort before d.rectangles }

abbrev pub skip :
    Rectangle → Option (Rectangle × List Rectangle) → Option (Rectangle × List Rectangle)
skip r none = none
skip r (some (found, rs)) = some (found, r ∷ rs)

-- The first rectangle that touches the candidate, and the others.
unfoldable pub take_touching : Rectangle → List Rectangle → Option (Rectangle × List Rectangle)
take_touching candidate [] = none
take_touching candidate (r ∷ rs) = elim (overlaps_or_is_compatibly_adjacent candidate r) [
  | true ↦ some (r, rs)
  | false ↦ skip r (take_touching candidate rs)
]

-- The loop over the rectangles, which begins again after each union: the enlarged candidate and the
-- rectangles that do not touch it, or none if a union fails. Each round takes a rectangle away, so the
-- number of rectangles is fuel enough.
unfoldable pub grow : ℕ → Rectangle → List Rectangle → Option (Rectangle × List Rectangle)
grow zero candidate rs = some (candidate, rs)
grow (suc fuel) candidate rs = elim (take_touching candidate rs) [
  | none ↦ some (candidate, rs)
  | some found ↦ elim (bounding_union candidate found.0) [
    | none ↦ none
    | some united ↦ grow fuel united found.1
  ]
]

-- The end of `add`, with the grown candidate at the back.
unfoldable pub keep_rectangles : List Rectangle → DamageRegion → DamageRegion
keep_rectangles all d =
    if ltb maximum_rectangles (length all)
    then add_full_output (record d { rectangles = all })
    else normalize (record d { rectangles = all })

unfoldable pub add_clipped : Rectangle → DamageRegion → DamageRegion
add_clipped clipped d = elim (grow (length d.rectangles) clipped d.rectangles) [
  | none ↦ add_full_output d
  | some grown ↦ keep_rectangles (grown.1 ++ (grown.0 ∷ [])) d
]

-- `add` of a region that is full or not, with the part of the rectangle on the output.
unfoldable pub add_part : Bool → Option Rectangle → DamageRegion → DamageRegion
add_part true part d = d
add_part false none d = d
add_part false (some clipped) d = add_clipped clipped d

unfoldable pub add : Rectangle → DamageRegion → DamageRegion
add rectangle d = add_part d.full_output (intersection rectangle d.output_bounds) d
