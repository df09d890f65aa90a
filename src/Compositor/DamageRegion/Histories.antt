-- ===== src/Compositor/DamageRegion/Histories.antt =====
-- Damage that is added one rectangle after the other, and the end of the loop that unites.
use glasswyrm.Prelude.{
  Bool, true, false, List, [], ◌∷◌, Option, none, some, ◌≡◌, ◌≤◌, ◌&&◌, ◌||◌, not, implied, arith,
  All, length, Bool-cases, inl, inr, any_of, refl, sym, ap, subst, ◌∙◌,
}
use glasswyrm.Prelude.Int.{ℤ}
use glasswyrm.Geometry.Rectangle.{Rectangle, intersect, covers, covered}
use glasswyrm.Geometry.Rectangle.Pixels.{covered_by, covered_by-intersect}
use glasswyrm.Geometry.Rectangle.Unions.{Inner, intersect-Inner}
use glasswyrm.Compositor.Rectangle.{is_empty, has_valid_extents, intersection}
use glasswyrm.Compositor.Rectangle.Agreement.{intersection-intersect}
use glasswyrm.Compositor.DamageRegion.{DamageRegion, maximum_rectangles, new, add, add_part}
use glasswyrm.Compositor.DamageRegion.Covering.{
  IsDamage, Damaged, output_valid, clipped_lem, covered_output, damage_inside,
}
use glasswyrm.Compositor.DamageRegion.Touching.{IsOutput}

-- The region after some damage, the first rectangle of the list being added last.
unfoldable pub damaged : Rectangle → List Rectangle → DamageRegion
damaged o [] = new o
damaged o (r ∷ rs) = add r (damaged o rs)

module _ (o : Rectangle) (output : IsOutput o) (nonempty : is_empty o ≡ false) where
  module _ (d : DamageRegion) (damage : IsDamage o output d) (r : Rectangle)
      (valid : has_valid_extents r ≡ true) where
    intersection_output : intersection r d.output_bounds ≡ intersect r o
    intersection_output =
        ap (λ (b : Rectangle). intersection r b) damage.0
        ∙ intersection-intersect r o valid (output_valid o output nonempty d damage)

    same_lem :
        (h : (px py : ℤ)
          → (covers r px py && covers o px py) ≡ true
          → covered d.rectangles px py ≡ true)
        → Damaged o output r d d
    same_lem h = (
      damage,
      λ px py e. elim (Bool-cases (covered d.rectangles px py)) [
        | inl k ↦ k
        | inr k ↦ h px py (ground arith)
      ],
    )

    add_part_lem :
        (full : Bool) (part : Option Rectangle)
        → d.full_output ≡ full
        → intersect r o ≡ part
        → Damaged o output r d (add_part full part d)
    unfolding add_part
    add_part_lem true part f e = same_lem (λ px py h.
        subst (λ (rs : List Rectangle). covered rs px py ≡ true) (sym (damage.3 f))
          (covered_output o output nonempty d damage px py
            (damage_inside o output nonempty d damage r px py (ground arith))))
    add_part_lem false none f e = same_lem (λ px py h. absurd (
        ground (
          arith,
          h,
          covered_by-intersect r o px py,
          ap (λ (q : Option Rectangle). covered_by q px py) e,
        )))
    add_part_lem false (some clipped) f e =
        clipped_lem o output nonempty d damage r clipped f (intersect-Inner r o clipped e).1
          (λ px py.
            ap (λ (q : Option Rectangle). covered_by q px py) (sym e)
            ∙ covered_by-intersect r o px py)

    pub add_lem : Damaged o output r d (add r d)
    unfolding add
    add_lem =
        subst (λ (q : Option Rectangle). Damaged o output r d (add_part d.full_output q d))
          (sym intersection_output) (add_part_lem d.full_output (intersect r o) refl refl)

  new_lem : IsDamage o output (new o)
  unfolding new
  new_lem = (refl, tt, omega arith, λ h. cc)

  damaged-IsDamage :
      (rs : List Rectangle)
      → All (λ r. has_valid_extents r ≡ true) rs
      → IsDamage o output (damaged o rs)
        × ((px py : ℤ)
            → (covered rs px py && covers o px py) ≡ true
            → covered (damaged o rs).rectangles px py ≡ true)
  unfolding damaged any_of
  damaged-IsDamage [] h = (new_lem, λ px py e. absurd (ground arith))
  damaged-IsDamage (r ∷ rs) h =
      let ih = damaged-IsDamage rs h.1 in
      let step = add_lem (damaged o rs) ih.0 r h.0 in
      (
        step.0,
        λ px py e. step.1 px py (elim (Bool-cases (covered rs px py)) [
          | inl k ↦ ground (arith, e, k, ih.1 px py (ground (arith, e, k)))
          | inr k ↦ ground (arith, e, k)
        ]),
      )

  -- Whatever is added to the damage of an output, the region keeps at most 4096 rectangles, none of
  -- them empty and all of them inside the output. A pixel of the output that one of the added
  -- rectangles covers is covered by the region, whether the rectangles were united or the limit made
  -- the whole output damaged. The output is not empty and has edges of 32 bits, and so has each
  -- rectangle.
  pub damaged_lem :
      (rs : List Rectangle)
      → All (λ r. has_valid_extents r ≡ true) rs
      → All (Inner o) (damaged o rs).rectangles
        × (length (damaged o rs).rectangles ≤ maximum_rectangles)
        × ((px py : ℤ)
            → (not (covered rs px py && covers o px py) || covered (damaged o rs).rectangles px py)
              ≡ true)
  damaged_lem rs h =
      let all = damaged-IsDamage rs h in (all.0.1, all.0.2, λ px py. implied (all.1 px py))
