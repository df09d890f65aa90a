-- ===== src/Server/XfixesRegion/Extents.antt =====
-- Moving a region, and the rectangle around it.
use glasswyrm.Prelude.{
  ℕ, List, [], ◌∷◌, some, ◌≡◌, refl, sym, subst, inl, inr, Option-cases, arith, All, length,
}
use glasswyrm.Prelude.Int.{
  ℤ, pos, ◌+ℤ◌, ◌-ℤ◌, ◌≤ℤ◌, min_ℤ, max_ℤ, bits_32, to_int32, +ℤ_parts, -ℤ_parts, eq_of_parts,
}
use glasswyrm.Geometry.Rectangle.{Rectangle, right, bottom, within, covers, layers}
use glasswyrm.Server.XfixesRegion.{translate_region, extents_from, region_extents, int32_max}
use glasswyrm.Server.XfixesRegion.Regular.{IsRegular, int32_min}

within_shift :
    (a p d : ℤ) (n : ℕ) → within (a +ℤ d) ((a +ℤ d) +ℤ pos n) (p +ℤ d) ≡ within a (a +ℤ pos n) p
unfolding within
within_shift a p d n =
    ground (arith, +ℤ_parts a d, +ℤ_parts (a +ℤ d) (pos n), +ℤ_parts p d, +ℤ_parts a (pos n))

-- The moved region covers a moved pixel by as many rectangles as the region covers the pixel by, and it
-- has as many rectangles.
layers-translate_region :
    (rs out : List Rectangle) (dx dy px py : ℤ)
    → translate_region rs dx dy ≡ some out
    → (layers out (px +ℤ dx) (py +ℤ dy) ≡ layers rs px py) × (length out ≡ length rs)
unfolding translate_region layers covers
layers-translate_region [] out dx dy px py s =
    let e : [] ≡ out = ground (arith, s) in rw (sym e) (refl, refl)
layers-translate_region (r ∷ rs) out dx dy px py s =
    elim (Option-cases (translate_region rs dx dy)) [
      | inl e ↦ absurd (ground (arith, e, s))
      | inr (moved, e) ↦
          let ih = layers-translate_region rs moved dx dy px py e in
          let eq : record r { x = r.x +ℤ dx; y = r.y +ℤ dy } ∷ moved ≡ out = ground (arith, e, s) in
          rw (sym eq) (
            ground (arith, ih.0, within_shift r.x px dx r.width, within_shift r.y py dy r.height),
            omega (arith, ih.1),
          )
    ]

abbrev pub Holds : ℤ × ℤ × ℤ × ℤ → Rectangle → Type 0
Holds e r = (e.0 ≤ℤ r.x) × (e.1 ≤ℤ r.y) × (right r ≤ℤ e.2) × (bottom r ≤ℤ e.3)

abbrev pub Grows : ℤ × ℤ × ℤ × ℤ → ℤ × ℤ × ℤ × ℤ → Type 0
Grows d e = (e.0 ≤ℤ d.0) × (e.1 ≤ℤ d.1) × (d.2 ≤ℤ e.2) × (d.3 ≤ℤ e.3)

extents_from-Grows :
    (rs : List Rectangle) (d : ℤ × ℤ × ℤ × ℤ)
    → Grows d (extents_from rs d) × All (Holds (extents_from rs d)) rs
unfolding extents_from
extents_from-Grows [] d = (ground arith, tt)
extents_from-Grows (r ∷ rs) d =
    let next : ℤ × ℤ × ℤ × ℤ =
      (min_ℤ d.0 r.x, min_ℤ d.1 r.y, max_ℤ d.2 (right r), max_ℤ d.3 (bottom r)) in
    let ih = extents_from-Grows rs next in (ground (arith, ih.0), (ground (arith, ih.0), ih.1))

-- A box around all of the rectangles is around the extents.
extents_from_least :
    (rs : List Rectangle) (d box : ℤ × ℤ × ℤ × ℤ)
    → Grows d box
    → All (Holds box) rs
    → Grows (extents_from rs d) box
unfolding extents_from
extents_from_least [] d box g h = g
extents_from_least (r ∷ rs) d box g h =
    let next : ℤ × ℤ × ℤ × ℤ =
      (min_ℤ d.0 r.x, min_ℤ d.1 r.y, max_ℤ d.2 (right r), max_ℤ d.3 (bottom r)) in
    extents_from_least rs next box (ground (arith, g, h.0)) h.1

to_int32_fits : (a : ℤ) → int32_min ≤ℤ a → a ≤ℤ int32_max → to_int32 a ≡ a
unfolding to_int32
to_int32_fits a h k = ground arith

bits_32_fits :
    (a b : ℤ) → int32_min ≤ℤ a → a ≤ℤ b → b ≤ℤ int32_max → a +ℤ pos (bits_32 (b -ℤ a)) ≡ b
bits_32_fits a b h k l =
    eq_of_parts (a +ℤ pos (bits_32 (b -ℤ a))) b
      (ground (arith, -ℤ_parts b a, +ℤ_parts a (pos (bits_32 (b -ℤ a)))))

regular-Holds :
    (box : ℤ × ℤ × ℤ × ℤ) (rs : List Rectangle)
    → box ≡ (int32_min, int32_min, int32_max, int32_max)
    → All IsRegular rs
    → All (Holds box) rs
regular-Holds box [] e h = tt
regular-Holds box (r ∷ rs) e h = (ground (arith, e, h.0), regular-Holds box rs e h.1)

abbrev pub edges : Rectangle → ℤ × ℤ × ℤ × ℤ
edges r = (r.x, r.y, right r, bottom r)

abbrev regular_box : ℤ × ℤ × ℤ × ℤ
regular_box = (int32_min, int32_min, int32_max, int32_max)

module _ (r : Rectangle) (rs : List Rectangle) (regular : All IsRegular (r ∷ rs)) where
  edges-region_extents : edges (region_extents (r ∷ rs)) ≡ extents_from (r ∷ rs) (edges r)
  unfolding region_extents
  edges-region_extents =
      let e = extents_from (r ∷ rs) (edges r) in
      let inside = regular-Holds regular_box (r ∷ rs) refl regular in
      let least = extents_from_least (r ∷ rs) (edges r) regular_box (omega arith) inside in
      let holds = (extents_from-Grows (r ∷ rs) (edges r)).1.0 in
      let first = regular.0 in
      let wide : e.0 ≤ℤ e.2 = ground (arith, +ℤ_parts r.x (pos r.width)) in
      let high : e.1 ≤ℤ e.3 = ground (arith, +ℤ_parts r.y (pos r.height)) in
      rw (to_int32_fits e.0 (omega arith) (omega arith)) (
        rw (to_int32_fits e.1 (omega arith) (omega arith)) (
          rw (bits_32_fits e.0 e.2 (omega arith) wide (omega arith))
            (rw (bits_32_fits e.1 e.3 (omega arith) high (omega arith)) refl)))

  -- The extents of a region that is not empty are the least rectangle around all of its rectangles:
  -- they lie inside it, and it lies inside every box in which they do. The rectangles of the region
  -- are taken not to be empty and to have edges of 32 bits.
  region_extents_least :
      (box : ℤ × ℤ × ℤ × ℤ)
      → All (Holds box) (r ∷ rs)
      → All (Holds (edges (region_extents (r ∷ rs)))) (r ∷ rs)
        × Grows (edges (region_extents (r ∷ rs))) box
  region_extents_least box h =
      subst (λ (e : ℤ × ℤ × ℤ × ℤ). All (Holds e) (r ∷ rs) × Grows e box) (sym edges-region_extents)
        ((extents_from-Grows (r ∷ rs) (edges r)).1, extents_from_least (r ∷ rs) (edges r) box h.0 h)
