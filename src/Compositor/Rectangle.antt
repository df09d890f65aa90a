-- ===== src/Compositor/Rectangle.antt =====
-- src/compositor/rectangle.hpp and rectangle.cpp. The rectangle has the fields of the one of
-- src/core/geometry, whose type it shares here.
pub mod Agreement
use glasswyrm.Prelude.{
  ℕ, Bool, true, false, Option, none, some, ◌&&◌, ◌||◌, not, if◌then◌else◌, ◌==◌,
}
use glasswyrm.Prelude.Int.{ℤ, pos, negsuc, ◌+ℤ◌, ltb_ℤ, leb_ℤ, eqb_ℤ, max_ℤ, min_ℤ}
use glasswyrm.Geometry.Rectangle.{Rectangle, right, bottom, between}

unfoldable pub is_empty : Rectangle → Bool
is_empty r = r.width == 0 || r.height == 0

abbrev pub coordinate_fits : ℤ → Bool
coordinate_fits value = leb_ℤ (negsuc 2147483647) value && leb_ℤ value (pos 2147483647)

unfoldable pub has_valid_extents : Rectangle → Bool
has_valid_extents r = coordinate_fits (right r) && coordinate_fits (bottom r)

-- The casts keep the value, as in the other intersection.
unfoldable pub intersection : Rectangle → Rectangle → Option Rectangle
intersection l r =
    if is_empty l || (is_empty r || (not (has_valid_extents l) || not (has_valid_extents r)))
    then none
    else let x1 = max_ℤ l.x r.x in
      let y1 = max_ℤ l.y r.y in
      let x2 = min_ℤ (right l) (right r) in
      let y2 = min_ℤ (bottom l) (bottom r) in
      if leb_ℤ x2 x1 || leb_ℤ y2 y1 then none else some (between x1 y1 x2 y2)

unfoldable pub translate : Rectangle → ℤ → ℤ → Option Rectangle
translate r dx dy =
    if not (has_valid_extents r)
    then none
    else (if not (coordinate_fits (r.x +ℤ dx))
          || (not (coordinate_fits (r.y +ℤ dy))
              || (not (coordinate_fits (right r +ℤ dx)) || not (coordinate_fits (bottom r +ℤ dy))))
        then none
        else some (record r { x = r.x +ℤ dx; y = r.y +ℤ dy }))

unfoldable pub overlaps_or_is_compatibly_adjacent : Rectangle → Rectangle → Bool
overlaps_or_is_compatibly_adjacent l r =
    if is_empty l || (is_empty r || (not (has_valid_extents l) || not (has_valid_extents r)))
    then false
    else let overlaps =
        ltb_ℤ l.x (right r)
        && (ltb_ℤ r.x (right l) && (ltb_ℤ l.y (bottom r) && ltb_ℤ r.y (bottom l))) in
      let horizontal =
        eqb_ℤ l.y r.y && (l.height == r.height && (leb_ℤ r.x (right l) && leb_ℤ l.x (right r))) in
      let vertical =
        eqb_ℤ l.x r.x && (l.width == r.width && (leb_ℤ r.y (bottom l) && leb_ℤ l.y (bottom r))) in
      overlaps || (horizontal || vertical)

-- The extents fit 32 bits, since both corners do.
unfoldable pub bounding_union : Rectangle → Rectangle → Option Rectangle
bounding_union l r =
    if not (has_valid_extents l) || not (has_valid_extents r)
    then none
    else (if is_empty l
        then some r
        else (if is_empty r
            then some l
            else let x1 = min_ℤ l.x r.x in
              let y1 = min_ℤ l.y r.y in
              let x2 = max_ℤ (right l) (right r) in
              let y2 = max_ℤ (bottom l) (bottom r) in
              if not (coordinate_fits x1)
                || (not (coordinate_fits y1)
                    || (not (coordinate_fits x2) || not (coordinate_fits y2)))
              then none
              else some (between x1 y1 x2 y2)))
