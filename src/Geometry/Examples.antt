-- ===== src/Geometry/Examples.antt =====
-- src/core/geometry: a region of 100 by 100 that two rectangles are added to, one of them partly
-- outside.
use glasswyrm.Prelude.{[], ◌∷◌, List, ◌≡◌, ◌≤◌, arith, All, length, true, not, ◌&&◌, ◌||◌}
use glasswyrm.Prelude.Int.{ℤ, pos, negsuc}
use glasswyrm.Geometry.Rectangle.{Rectangle, covers, covered}
use glasswyrm.Geometry.Rectangle.Unions.{Inner}
use glasswyrm.Geometry.Region.{maximum_rectangles}
use glasswyrm.Geometry.Region.Histories.{region_of, region_of_lem}

abbrev bounds : Rectangle
bounds = record { x = pos 0; y = pos 0; width = 100; height = 100 }

abbrev added : List Rectangle
added =
    record { x = negsuc 9; y = pos 20; width = 40; height = 10 }
    ∷ record { x = pos 30; y = pos 20; width = 20; height = 10 }
    ∷ []

region_of_lem_example :
    All (Inner bounds) (region_of bounds added).rectangles
    × (length (region_of bounds added).rectangles ≤ maximum_rectangles)
    × ((px py : ℤ)
        → (not (covered added px py && covers bounds px py)
            || covered (region_of bounds added).rectangles px py)
          ≡ true)
region_of_lem_example =
    region_of_lem bounds (ground arith) (ground arith) (ground arith) (ground arith) added
