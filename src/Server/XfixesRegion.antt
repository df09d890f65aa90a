-- ===== src/Server/XfixesRegion.antt =====
-- src/glasswyrmd/xfixes_region.hpp and xfixes_region.cpp. A region is the list of its rectangles. The
-- casts in `subtract_one` keep the value, as every piece lies inside the source; that of `merge_pair`
-- and those of `region_extents` are written out.
pub mod Pieces
pub mod Regular
pub mod Pairs
pub mod Merges
pub mod Ends
pub mod Adding
pub mod Unions
pub mod Sets
pub mod Extents
pub mod Examples
use glasswyrm.Prelude.{
  ℕ, zero, suc, ◌+◌, ◌%◌, ◌^◌, Bool, true, false, List, [], ◌∷◌, ◌++◌, Option, none, some, map,
  ◌&&◌, ◌||◌, not, if◌then◌else◌, ltb, leb, ◌==◌, length,
}
use glasswyrm.Prelude.Int.{
  ℤ, pos, negsuc, ◌+ℤ◌, ◌-ℤ◌, ltb_ℤ, leb_ℤ, eqb_ℤ, max_ℤ, min_ℤ, bits_32, to_int32,
}
use glasswyrm.Prelude.Sort.{sort}
use glasswyrm.Geometry.Rectangle.{Rectangle, right, bottom, extent, between, intersect}
use glasswyrm.Geometry.Merging.{absorb}

abbrev pub maximum_xfixes_region_rectangles : ℕ
maximum_xfixes_region_rectangles = 4096

abbrev pub int32_max : ℤ
int32_max = pos 2147483647

unfoldable pub valid : Rectangle → Bool
valid r =
    if r.width == 0 || r.height == 0
    then false
    else leb_ℤ (right r) int32_max && leb_ℤ (bottom r) int32_max

-- A piece that is made under a guard.
abbrev pub piece : Bool → Rectangle → List Rectangle
piece true r = r ∷ []
piece false r = []

-- What is left of the source around the overlap: above, below, to the left and to the right of it.
unfoldable pub pieces_around : Rectangle → Rectangle → List Rectangle
pieces_around source overlap =
    piece (ltb_ℤ source.y overlap.y) (record source { height = extent source.y overlap.y })
    ++ (piece (ltb_ℤ (bottom overlap) (bottom source))
          (record source { y = bottom overlap; height = extent (bottom overlap) (bottom source) })
        ++ (piece (ltb_ℤ source.x overlap.x)
              (record overlap { x = source.x; width = extent source.x overlap.x })
            ++ piece (ltb_ℤ (right overlap) (right source)) (record overlap {
              x = right overlap;
              width = extent (right overlap) (right source);
            })))

unfoldable pub subtract_one : Rectangle → Rectangle → List Rectangle
subtract_one source removed = elim (intersect source removed) [
  | none ↦ source ∷ []
  | some overlap ↦ pieces_around source overlap
]

unfoldable pub merge_pair : Rectangle → Rectangle → Option Rectangle
merge_pair l r =
    if eqb_ℤ l.y r.y && (l.height == r.height && eqb_ℤ (right l) r.x)
    then some (record l { width = (l.width + r.width) % 2 ^ 32 })
    else (if eqb_ℤ l.x r.x && (l.width == r.width && eqb_ℤ (bottom l) r.y)
        then some (record l { height = (l.height + r.height) % 2 ^ 32 })
        else none)

abbrev pub before : Rectangle → Rectangle → Bool
before l r =
    ltb_ℤ l.y r.y
    || (eqb_ℤ l.y r.y
        && (ltb_ℤ l.x r.x
            || (eqb_ℤ l.x r.x
                && (ltb l.height r.height || (l.height == r.height && ltb l.width r.width)))))

unfoldable pub sort_rectangles : List Rectangle → List Rectangle
sort_rectangles rs = sort before rs

abbrev pub behind : Rectangle → List Rectangle × Bool → List Rectangle × Bool
behind l merged = (l ∷ merged.0, merged.1)

-- The two loops of merge_adjacent from one rectangle on. The fuel is the number of rectangles: each
-- round leaves one behind or merges one away, and `merge_from_enough` of Ends says that more of it
-- changes nothing.
unfoldable pub merge_from : ℕ → List Rectangle → List Rectangle × Bool
merge_from zero rs = (rs, false)
merge_from (suc fuel) [] = ([], false)
merge_from (suc fuel) (l ∷ rs) = elim (absorb merge_pair l rs) [
  | some merged ↦ ((merge_from fuel (merged.0 ∷ merged.1)).0, true)
  | none ↦ behind l (merge_from fuel rs)
]

unfoldable pub merge_adjacent : List Rectangle → List Rectangle × Bool
merge_adjacent rs = merge_from (length rs) rs

-- `while (merge_adjacent(destination)) {}`.
unfoldable pub merge_while : ℕ → List Rectangle → List Rectangle
merge_while zero rs = rs
merge_while (suc fuel) rs = elim (merge_adjacent rs).1 [
  | true ↦ merge_while fuel (merge_adjacent rs).0
  | false ↦ (merge_adjacent rs).0
]

unfoldable pub merge_all : List Rectangle → List Rectangle
merge_all rs = merge_while (suc (length rs)) rs

-- The loop over the fragments, with the size of the destination.
unfoldable pub split_fragments :
    ℕ → Rectangle → List Rectangle → List Rectangle → Option (List Rectangle)
split_fragments size existing [] next = some next
split_fragments size existing (fragment ∷ fragments) next =
    elim (ltb maximum_xfixes_region_rectangles
      (length (next ++ subtract_one fragment existing) + size)) [
        | true ↦ none
        | false ↦ split_fragments size existing fragments (next ++ subtract_one fragment existing)
      ]

-- The loop over the destination, which an empty list of fragments ends.
unfoldable pub split_by : ℕ → List Rectangle → List Rectangle → Option (List Rectangle)
split_by size [] fragments = some fragments
split_by size (existing ∷ destination) fragments =
    elim (split_fragments size existing fragments []) [
      | none ↦ none
      | some [] ↦ some []
      | some (f ∷ fs) ↦ split_by size destination (f ∷ fs)
    ]

-- The destination after the call, and whether the call succeeded.
unfoldable pub add_rectangle : List Rectangle → Rectangle → List Rectangle × Bool
add_rectangle destination r =
    if not (valid r)
    then (destination, r.width == 0 || r.height == 0)
    else elim (split_by (length destination) destination (r ∷ [])) [
      | none ↦ (destination, false)
      | some fragments ↦
          let merged = sort_rectangles (merge_all (destination ++ fragments)) in
          (merged, leb (length merged) maximum_xfixes_region_rectangles)
    ]

unfoldable pub add_rectangles : List Rectangle → List Rectangle → Option (List Rectangle)
add_rectangles result [] = some result
add_rectangles result (r ∷ rs) = elim (add_rectangle result r).1 [
  | true ↦ add_rectangles (add_rectangle result r).0 rs
  | false ↦ none
]

unfoldable pub normalize_region : List Rectangle → Option (List Rectangle)
normalize_region rs =
    if ltb maximum_xfixes_region_rectangles (length rs) then none else add_rectangles [] rs

unfoldable pub union_regions : List Rectangle → List Rectangle → Option (List Rectangle)
union_regions l r = elim (normalize_region l) [
  | none ↦ none
  | some result ↦ add_rectangles result r
]

-- The inner loop of intersect_regions.
unfoldable pub intersect_row : Rectangle → List Rectangle → List Rectangle → Option (List Rectangle)
intersect_row first [] result = some result
intersect_row first (second ∷ r) result = elim (intersect first second) [
  | none ↦ intersect_row first r result
  | some overlap ↦ elim (add_rectangle result overlap).1 [
    | true ↦ intersect_row first r (add_rectangle result overlap).0
    | false ↦ none
  ]
]

unfoldable pub intersect_rows :
    List Rectangle → List Rectangle → List Rectangle → Option (List Rectangle)
intersect_rows [] r result = some result
intersect_rows (first ∷ l) r result = elim (intersect_row first r result) [
  | none ↦ none
  | some next ↦ intersect_rows l r next
]

unfoldable pub intersect_regions : List Rectangle → List Rectangle → Option (List Rectangle)
intersect_regions l r = intersect_rows l r []

-- The inner loop of subtract_regions.
unfoldable pub remove_from : Rectangle → List Rectangle → List Rectangle → Option (List Rectangle)
remove_from removed [] next = some next
remove_from removed (source ∷ rs) next =
    elim (ltb maximum_xfixes_region_rectangles (length (next ++ subtract_one source removed))) [
      | true ↦ none
      | false ↦ remove_from removed rs (next ++ subtract_one source removed)
    ]

unfoldable pub remove_each : List Rectangle → List Rectangle → Option (List Rectangle)
remove_each result [] = some result
remove_each result (removed ∷ r) = elim (remove_from removed result []) [
  | none ↦ none
  | some next ↦ elim (normalize_region next) [ none ↦ none | some normal ↦ remove_each normal r ]
]

unfoldable pub subtract_regions : List Rectangle → List Rectangle → Option (List Rectangle)
subtract_regions l r = elim (normalize_region l) [
  | none ↦ none
  | some result ↦ remove_each result r
]

abbrev pub fits_int16 : ℤ → Bool
fits_int16 a = leb_ℤ (negsuc 32767) a && leb_ℤ a (pos 32767)

unfoldable pub translate_region : List Rectangle → ℤ → ℤ → Option (List Rectangle)
translate_region [] dx dy = some []
translate_region (r ∷ rs) dx dy =
    if fits_int16 (r.x +ℤ dx) && fits_int16 (r.y +ℤ dy)
    then elim (translate_region rs dx dy) [
      | none ↦ none
      | some moved ↦ some (record r { x = r.x +ℤ dx; y = r.y +ℤ dy } ∷ moved)
    ]
    else none

-- The corners after the loop of region_extents: left, top, right and bottom.
unfoldable pub extents_from : List Rectangle → ℤ × ℤ × ℤ × ℤ → ℤ × ℤ × ℤ × ℤ
extents_from [] e = e
extents_from (r ∷ rs) e =
    extents_from rs (min_ℤ e.0 r.x, min_ℤ e.1 r.y, max_ℤ e.2 (right r), max_ℤ e.3 (bottom r))

unfoldable pub region_extents : List Rectangle → Rectangle
region_extents [] = record { x = pos 0; y = pos 0; width = 0; height = 0 }
region_extents (r ∷ rs) =
    let e = extents_from (r ∷ rs) (r.x, r.y, right r, bottom r) in
    record {
      x = to_int32 e.0;
      y = to_int32 e.1;
      width = bits_32 (e.2 -ℤ e.0);
      height = bits_32 (e.3 -ℤ e.1);
    }
