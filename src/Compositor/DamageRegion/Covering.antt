-- ===== src/Compositor/DamageRegion/Covering.antt =====
-- A damage region covers all damage that was added to it, and stays inside its output.
use glasswyrm.Prelude.{
  ℕ, zero, suc, true, false, List, [], ◌∷◌, ◌++◌, Option, none, some, ◌≡◌, ◌≤◌, ◌&&◌, ◌||◌, arith,
  All, length, Bool-cases, Option-cases, inl, inr, any_of, refl, sym, ap, subst, ◌∙◌, ltb,
}
use glasswyrm.Prelude.Int.{ℤ}
use glasswyrm.Prelude.Sort.{All-sort, length-sort}
use glasswyrm.Geometry.Rectangle.{Rectangle, covers, covered}
use glasswyrm.Geometry.Rectangle.Unions.{
  Inner, union_of, union_of-Inner, covers-union_of, covers-Inner, covered-sort, covered-append,
}
use glasswyrm.Compositor.Rectangle.{is_empty, has_valid_extents}
use glasswyrm.Compositor.DamageRegion.{
  DamageRegion, keep_rectangles, add_clipped, take_touching, grow, add_full_output, normalize,
  before, maximum_rectangles,
}
use glasswyrm.Compositor.DamageRegion.Touching.{
  IsOutput, inner_valid, bounding_union-Inner, take_touching_lem, All-append, covered_one, Grown,
}

module _ (o : Rectangle) (output : IsOutput o) where
  grow_lem :
      (n : ℕ) (c : Rectangle) (rs : List Rectangle)
      → Inner o c
      → All (Inner o) rs
      → (g : Rectangle × List Rectangle) × (grow n c rs ≡ some g) × Grown o c rs g
  unfolding grow
  grow_lem zero c rs hc h = ((c, rs), refl, (hc, h, omega arith, λ px py e. e))
  grow_lem (suc n) c rs hc h = elim (Option-cases (take_touching c rs)) [
    | inl e ↦ ((c, rs), rw (e, grow) refl, (hc, h, omega arith, λ px py e. e))
    | inr (found, e) ↦
        let taken = take_touching_lem o c rs found h e in
        let united = bounding_union-Inner o c found.0 output hc taken.0 in
        let ih =
          grow_lem n (union_of c found.0) found.1 (union_of-Inner o c found.0 hc taken.0) taken.1 in
        (
          ih.0,
          rw (e, united, grow) ih.1,
          (
            ih.2.0,
            ih.2.1,
            omega (arith, ih.2.2, taken.2),
            λ px py b.
                ih.2.3 px py
                  (ground (arith, b, taken.3 px py, covers-union_of o c found.0 hc taken.0 px py)),
          ),
        )
  ]

  -- The damage region of the output o: its rectangles are not empty, lie inside the output and are at
  -- most 4096; a full one is the output itself.
  abbrev pub IsDamage : DamageRegion → Type 0
  IsDamage d =
      (d.output_bounds ≡ o)
      × All (Inner o) d.rectangles
      × (length d.rectangles ≤ maximum_rectangles)
      × (d.full_output ≡ true → d.rectangles ≡ o ∷ [])

  abbrev pub Damaged : Rectangle → DamageRegion → DamageRegion → Type 0
  Damaged r d d' =
      IsDamage d'
      × ((px py : ℤ)
          → (covered d.rectangles px py || (covers r px py && covers o px py)) ≡ true
          → covered d'.rectangles px py ≡ true)

  module _ (nonempty : is_empty o ≡ false) (d : DamageRegion) (damage : IsDamage d) where
    output-Inner : Inner o o
    unfolding is_empty
    output-Inner = ground arith

    pub output_valid : has_valid_extents o ≡ true
    output_valid = (inner_valid o o output output-Inner).0

    covered_inside :
        (rs : List Rectangle) (px py : ℤ)
        → All (Inner o) rs
        → covered rs px py ≡ true
        → covers o px py ≡ true
    unfolding any_of
    covered_inside [] px py h e = absurd (ground arith)
    covered_inside (r ∷ rs) px py h e = elim (Bool-cases (covers r px py)) [
      | inl k ↦ covers-Inner o r px py h.0 k
      | inr k ↦ covered_inside rs px py h.1 (ground arith)
    ]

    pub covered_output : (px py : ℤ) → covers o px py ≡ true → covered (o ∷ []) px py ≡ true
    unfolding any_of
    covered_output px py e = ground arith

    pub damage_inside :
        (r : Rectangle) (px py : ℤ)
        → (covered d.rectangles px py || (covers r px py && covers o px py)) ≡ true
        → covers o px py ≡ true
    damage_inside r px py e = elim (Bool-cases (covered d.rectangles px py)) [
      | inl k ↦ covered_inside d.rectangles px py damage.1 k
      | inr k ↦ ground arith
    ]

    full_rectangles :
        (rs : List Rectangle) → (add_full_output (record d { rectangles = rs })).rectangles ≡ o ∷ []
    unfolding add_full_output
    full_rectangles rs = rw (damage.0, nonempty, (inner_valid o o output output-Inner).0) refl

    full_lem :
        (r : Rectangle) (rs : List Rectangle)
        → Damaged r d (add_full_output (record d { rectangles = rs }))
    unfolding add_full_output
    full_lem r rs =
        let e = full_rectangles rs in
        (
          (
            damage.0,
            subst (All (Inner o)) (sym e) (output-Inner, tt),
            subst (λ (qs : List Rectangle). length qs ≤ maximum_rectangles) (sym e) (omega arith),
            λ _. e,
          ),
          λ px py h.
              subst (λ (qs : List Rectangle). covered qs px py ≡ true) (sym e)
                (covered_output px py (damage_inside r px py h)),
        )

    grown_lem :
        (r : Rectangle) (all : List Rectangle)
        → All (Inner o) all
        → length all ≤ maximum_rectangles
        → d.full_output ≡ false
        → ((px py : ℤ)
            → (covered d.rectangles px py || (covers r px py && covers o px py)) ≡ true
            → covered all px py ≡ true)
        → Damaged r d (normalize (record d { rectangles = all }))
    unfolding normalize
    grown_lem r all h n f c = (
      (
        damage.0,
        All-sort before (Inner o) all h,
        rw (length-sort before all) n,
        λ e. absurd (ground (arith, e, f)),
      ),
      λ px py e. covered-sort before all px py ∙ c px py e,
    )

    keep_lem :
        (r : Rectangle) (all : List Rectangle)
        → All (Inner o) all
        → d.full_output ≡ false
        → ((px py : ℤ)
            → (covered d.rectangles px py || (covers r px py && covers o px py)) ≡ true
            → covered all px py ≡ true)
        → Damaged r d (keep_rectangles all d)
    unfolding keep_rectangles
    keep_lem r all h f c = elim (Bool-cases (ltb maximum_rectangles (length all))) [
      | inl e ↦ rw e (full_lem r all)
      | inr e ↦ rw e (grown_lem r all h (ground (arith, e)) f c)
    ]

    add_clipped-some :
        (clipped : Rectangle) (g : Rectangle × List Rectangle)
        → grow (length d.rectangles) clipped d.rectangles ≡ some g
        → add_clipped clipped d ≡ keep_rectangles (g.1 ++ (g.0 ∷ [])) d
    unfolding add_clipped
    add_clipped-some clipped g e =
        ap
          (λ (found : Option (Rectangle × List Rectangle)). elim found as (λ _. DamageRegion) [
            | none ↦ add_full_output d
            | some grown ↦ keep_rectangles (grown.1 ++ (grown.0 ∷ [])) d
          ])
          e

    pub clipped_lem :
        (r clipped : Rectangle)
        → d.full_output ≡ false
        → Inner o clipped
        → ((px py : ℤ) → covers clipped px py ≡ (covers r px py && covers o px py))
        → Damaged r d (add_clipped clipped d)
    clipped_lem r clipped f inside c =
        let (g, e, h) = grow_lem (length d.rectangles) clipped d.rectangles inside damage.1 in
        subst (Damaged r d) (sym (add_clipped-some clipped g e)) (
          keep_lem r (g.1 ++ (g.0 ∷ [])) (All-append (Inner o) g.1 (g.0 ∷ []) h.1 (h.0, tt)) f
            (λ px py b. ground (
              arith,
              covered-append g.1 (g.0 ∷ []) px py,
              h.3 px py (ground (arith, b, c px py)),
              covered_one g.0 px py,
            )))
