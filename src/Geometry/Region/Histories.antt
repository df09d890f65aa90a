-- ===== src/Geometry/Region/Histories.antt =====
-- Rectangles that are added to a region one after the other.
use glasswyrm.Prelude.{
  true, List, [], ◌∷◌, ◌++◌, Option, none, some, ◌≡◌, ◌<◌, ◌≤◌, ◌^◌, ◌&&◌, ◌||◌, not, implied,
  arith, All, length, Bool-cases, inl, inr, any_of, refl, sym, ap, subst, ◌∙◌, ltb,
}
use glasswyrm.Prelude.Int.{ℤ}
use glasswyrm.Prelude.Sort.{sort, All-sort}
use glasswyrm.Geometry.Rectangle.{Rectangle, intersect, covers, covered}
use glasswyrm.Geometry.Rectangle.Pixels.{covered_by, covered_by-intersect}
use glasswyrm.Geometry.Rectangle.Unions.{
  Inner, covers-Inner, intersect-Inner, covered-sort, covered-append,
}
use glasswyrm.Geometry.Region.{Region, merge_while, before, add, add_part, maximum_rectangles}
use glasswyrm.Geometry.Region.Covering.{merge_while_lem}

-- The region after some rectangles, the first of the list being added last.
unfoldable pub region_of : Rectangle → List Rectangle → Region
region_of bounds [] = record { bounds = bounds; rectangles = [] }
region_of bounds (r ∷ rs) = add r (region_of bounds rs)

module _ (o : Rectangle) (wide : o.width < 2 ^ 32) (high : o.height < 2 ^ 32)
    (some_width : 0 < o.width) (some_height : 0 < o.height) where
  abbrev IsRegion : Region → Type 0
  IsRegion s =
      (s.bounds ≡ o) × All (Inner o) s.rectangles × (length s.rectangles ≤ maximum_rectangles)

  abbrev Added : Rectangle → Region → Region → Type 0
  Added r s s' =
      IsRegion s'
      × ((px py : ℤ)
          → (covered s.rectangles px py || (covers o px py && covers r px py)) ≡ true
          → covered s'.rectangles px py ≡ true)

  covers-covered :
      (rs : List Rectangle) (px py : ℤ)
      → All (Inner o) rs
      → covered rs px py ≡ true
      → covers o px py ≡ true
  unfolding any_of
  covers-covered [] px py h e = absurd (ground arith)
  covers-covered (r ∷ rs) px py h e = elim (Bool-cases (covers r px py)) [
    | inl k ↦ covers-Inner o r px py h.0 k
    | inr k ↦ covers-covered rs px py h.1 (ground arith)
  ]

  covered_one : (r : Rectangle) (px py : ℤ) → covered (r ∷ []) px py ≡ covers r px py
  unfolding any_of
  covered_one r px py = ground arith

  All-append :
      (xs ys : List Rectangle) → All (Inner o) xs → All (Inner o) ys → All (Inner o) (xs ++ ys)
  All-append [] ys h k = k
  All-append (x ∷ xs) ys h k = (h.0, All-append xs ys h.1 k)

  module _ (s : Region) (region : IsRegion s) (r : Rectangle) where
    add_part_lem : (part : Option Rectangle) → intersect o r ≡ part → Added r s (add_part part s)
    unfolding add_part
    add_part_lem none e = (
      region,
      λ px py h. ground (
        arith,
        h,
        covered_by-intersect o r px py,
        ap (λ (q : Option Rectangle). covered_by q px py) e,
      ),
    )
    add_part_lem (some clipped) e =
        let all = s.rectangles ++ (clipped ∷ []) in
        let inner =
          All-append s.rectangles (clipped ∷ []) region.1 ((intersect-Inner o r clipped e).0, tt) in
        let merged = merge_while_lem o wide high (length all) all inner (omega arith) in
        let result = sort before (merge_while (length all) all) in
        let kept = All-sort before (Inner o) (merge_while (length all) all) merged.0 in
        elim (Bool-cases (ltb maximum_rectangles (length result))) [
          | inl b ↦ rw b (
            (region.0, (ground arith, tt), omega arith),
            λ px py h.
                covered_one s.bounds px py
                ∙ subst (λ (b : Rectangle). covers b px py ≡ true) (sym region.0)
                    (elim (Bool-cases (covered s.rectangles px py)) [
                      | inl k ↦ covers-covered s.rectangles px py region.1 k
                      | inr k ↦ ground (arith, h, k)
                    ]),
          )
          | inr b ↦ rw b (
            (region.0, kept, ground (arith, b)),
            λ px py h.
                covered-sort before (merge_while (length all) all) px py
                ∙ merged.1 px py (
                    ground (
                      arith,
                      h,
                      covered-append s.rectangles (clipped ∷ []) px py,
                      covered_one clipped px py,
                      covered_by-intersect o r px py,
                      ap (λ (q : Option Rectangle). covered_by q px py) e,
                    )),
          )
        ]

    add_lem : Added r s (add r s)
    unfolding add
    add_lem =
        subst (λ (b : Rectangle). Added r s (add_part (intersect b r) s)) (sym region.0)
          (add_part_lem (intersect o r) refl)

  region_of-IsRegion :
      (rs : List Rectangle)
      → IsRegion (region_of o rs)
        × ((px py : ℤ)
            → (covered rs px py && covers o px py) ≡ true
            → covered (region_of o rs).rectangles px py ≡ true)
  unfolding region_of any_of
  region_of-IsRegion [] = ((refl, tt, omega arith), λ px py e. absurd (ground arith))
  region_of-IsRegion (r ∷ rs) =
      let ih = region_of-IsRegion rs in
      let step = add_lem (region_of o rs) ih.0 r in
      (
        step.0,
        λ px py e. step.1 px py (elim (Bool-cases (covered rs px py)) [
          | inl k ↦ ground (arith, e, k, ih.1 px py (ground (arith, e, k)))
          | inr k ↦ ground (arith, e, k)
        ]),
      )

  -- Whatever is added to a region, it keeps at most 1024 rectangles, none of them empty and all of
  -- them inside its bounds, and a pixel of the bounds that an added rectangle covers is covered by
  -- the region. The bounds are not empty and their sizes are numbers of 32 bits.
  pub region_of_lem :
      (rs : List Rectangle)
      → All (Inner o) (region_of o rs).rectangles
        × (length (region_of o rs).rectangles ≤ maximum_rectangles)
        × ((px py : ℤ)
            → (not (covered rs px py && covers o px py)
                || covered (region_of o rs).rectangles px py)
              ≡ true)
  region_of_lem rs =
      let all = region_of-IsRegion rs in (all.0.1, all.0.2, λ px py. implied (all.1 px py))
