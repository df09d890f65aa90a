-- ===== src/Server/XfixesRegion/Examples.antt =====
-- src/glasswyrmd/xfixes_region.cpp on two squares, the smaller one inside the other.
use glasswyrm.Prelude.{
  ℕ, [], ◌∷◌, List, some, ◌≡◌, ◌≤◌, arith, All, length, true, false, not, ◌&&◌, refl,
}
use glasswyrm.Prelude.Int.{ℤ, pos, negsuc}
use glasswyrm.Geometry.Rectangle.{Rectangle, covered}
use glasswyrm.Server.XfixesRegion.{intersect_regions, subtract_regions, merge_adjacent, merge_all}
use glasswyrm.Server.XfixesRegion.Ends.{Unjoined, merge_all_ends}
use glasswyrm.Server.XfixesRegion.Sets.{intersect_regions_lem, subtract_regions_lem}
use glasswyrm.Server.XfixesRegion.Unions.{Represents}

abbrev square : Rectangle
square = record { x = negsuc 0; y = pos 0; width = 6; height = 6 }

abbrev hole : Rectangle
hole = record { x = pos 1; y = pos 2; width = 2; height = 2 }

abbrev ring : List Rectangle
ring =
    record { x = negsuc 0; y = pos 0; width = 6; height = 2 }
    ∷ record { x = negsuc 0; y = pos 2; width = 2; height = 2 }
    ∷ record { x = pos 3; y = pos 2; width = 2; height = 2 }
    ∷ record { x = negsuc 0; y = pos 4; width = 6; height = 2 }
    ∷ []

subtracted : subtract_regions (square ∷ []) (hole ∷ []) ≡ some ring
unfolding subtract_regions glasswyrm.Server.XfixesRegion.normalize_region
    glasswyrm.Server.XfixesRegion.add_rectangles glasswyrm.Server.XfixesRegion.add_rectangle
    glasswyrm.Server.XfixesRegion.valid glasswyrm.Prelude.Int.◌+ℤ◌
    glasswyrm.Server.XfixesRegion.split_by glasswyrm.Server.XfixesRegion.sort_rectangles
    glasswyrm.Prelude.Sort.sort merge_all glasswyrm.Server.XfixesRegion.merge_while merge_adjacent
    glasswyrm.Server.XfixesRegion.merge_from glasswyrm.Geometry.Merging.absorb
    glasswyrm.Prelude.Sort.place glasswyrm.Server.XfixesRegion.remove_each
    glasswyrm.Server.XfixesRegion.remove_from glasswyrm.Server.XfixesRegion.subtract_one
    glasswyrm.Geometry.Rectangle.intersect glasswyrm.Prelude.Int.◌-ℤ◌
    glasswyrm.Server.XfixesRegion.merge_pair glasswyrm.Server.XfixesRegion.pieces_around
    glasswyrm.Server.XfixesRegion.split_fragments
subtracted = refl

common : intersect_regions (square ∷ []) (hole ∷ []) ≡ some (hole ∷ [])
unfolding intersect_regions glasswyrm.Server.XfixesRegion.intersect_rows
    glasswyrm.Server.XfixesRegion.intersect_row glasswyrm.Geometry.Rectangle.intersect
    glasswyrm.Prelude.Int.◌+ℤ◌ glasswyrm.Server.XfixesRegion.add_rectangle
    glasswyrm.Server.XfixesRegion.valid glasswyrm.Prelude.Int.◌-ℤ◌
    glasswyrm.Server.XfixesRegion.split_by glasswyrm.Server.XfixesRegion.sort_rectangles
    glasswyrm.Prelude.Sort.sort merge_all glasswyrm.Server.XfixesRegion.merge_while merge_adjacent
    glasswyrm.Server.XfixesRegion.merge_from glasswyrm.Geometry.Merging.absorb
    glasswyrm.Prelude.Sort.place
common = refl

subtract_regions_lem_example :
    Represents ring (λ px py. covered (square ∷ []) px py && not (covered (hole ∷ []) px py))
subtract_regions_lem_example =
    subtract_regions_lem (square ∷ []) (hole ∷ []) ring (ground arith, tt) subtracted

intersect_regions_lem_example :
    Represents (hole ∷ []) (λ px py. covered (square ∷ []) px py && covered (hole ∷ []) px py)
intersect_regions_lem_example =
    intersect_regions_lem (square ∷ []) (hole ∷ []) (hole ∷ []) (ground arith, tt) common

merge_all_ends_example : Unjoined (merge_all ring) × (length (merge_all ring) ≤ length ring)
merge_all_ends_example = merge_all_ends ring
