-- ===== src/Compositor/Examples.antt =====
-- src/compositor: the damage of an output of 1920 by 1080, of two rectangles that touch and one apart.
use glasswyrm.Prelude.{
  ℕ, [], ◌∷◌, List, ◌≡◌, ◌≤◌, arith, All, length, true, false, not, ◌&&◌, ◌||◌, refl,
}
use glasswyrm.Prelude.Int.{ℤ, pos, negsuc, ◌+ℤ◌}
use glasswyrm.Geometry.Rectangle.{Rectangle, covers, covered, intersect}
use glasswyrm.Geometry.Rectangle.Unions.{Inner}
use glasswyrm.Compositor.Rectangle.{is_empty, has_valid_extents, intersection}
use glasswyrm.Compositor.Rectangle.Agreement.{intersection-intersect}
use glasswyrm.Compositor.DamageRegion.{maximum_rectangles}
use glasswyrm.Compositor.DamageRegion.Touching.{IsOutput}
use glasswyrm.Compositor.DamageRegion.Histories.{damaged, damaged_lem}

abbrev output : Rectangle
output = record { x = pos 0; y = pos 0; width = 1920; height = 1080 }

output-IsOutput : IsOutput output
unfolding ◌+ℤ◌
output-IsOutput = ground arith

abbrev left : Rectangle
left = record { x = negsuc 4; y = pos 10; width = 20; height = 20 }

abbrev beside : Rectangle
beside = record { x = pos 10; y = pos 10; width = 20; height = 20 }

abbrev apart : Rectangle
apart = record { x = pos 500; y = pos 500; width = 1; height = 2 }

abbrev united : Rectangle
united = record { x = negsuc 4; y = pos 10; width = 35; height = 20 }

left-valid : has_valid_extents left ≡ true
unfolding has_valid_extents glasswyrm.Prelude.Int.◌+ℤ◌
left-valid = refl

beside-valid : has_valid_extents beside ≡ true
unfolding has_valid_extents glasswyrm.Prelude.Int.◌+ℤ◌
beside-valid = refl

apart-valid : has_valid_extents apart ≡ true
unfolding has_valid_extents glasswyrm.Prelude.Int.◌+ℤ◌
apart-valid = refl

output-nonempty : is_empty output ≡ false
unfolding is_empty
output-nonempty = refl

intersection-intersect_example : intersection left beside ≡ intersect left beside
intersection-intersect_example = intersection-intersect left beside left-valid beside-valid

damaged_lem_example :
    All (Inner output) (damaged output (left ∷ beside ∷ apart ∷ [])).rectangles
    × (length (damaged output (left ∷ beside ∷ apart ∷ [])).rectangles ≤ maximum_rectangles)
    × ((px py : ℤ)
        → (not (covered (left ∷ beside ∷ apart ∷ []) px py && covers output px py)
            || covered (damaged output (left ∷ beside ∷ apart ∷ [])).rectangles px py)
          ≡ true)
damaged_lem_example =
    damaged_lem output output-IsOutput output-nonempty (left ∷ beside ∷ apart ∷ [])
      (left-valid, (beside-valid, (apart-valid, tt)))
