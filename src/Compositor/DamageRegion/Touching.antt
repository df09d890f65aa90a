-- ===== src/Compositor/DamageRegion/Touching.antt =====
-- Rectangles inside an output that touch, and their unions.
use glasswyrm.Prelude.{
  suc, true, false, List, [], ◌∷◌, ◌++◌, some, ◌≡◌, ◌≤◌, ◌||◌, arith, All, length, Bool-cases,
  Option-cases, inl, inr, any_of, refl, sym,
}
use glasswyrm.Prelude.Int.{ℤ, pos, negsuc, ◌≤ℤ◌, min_ℤ, max_ℤ, +ℤ_parts}
use glasswyrm.Geometry.Rectangle.{Rectangle, right, bottom, covers, covered}
use glasswyrm.Geometry.Rectangle.Unions.{Inner, union_of}
use glasswyrm.Compositor.Rectangle.{
  coordinate_fits, is_empty, has_valid_extents, bounding_union, overlaps_or_is_compatibly_adjacent,
}
use glasswyrm.Compositor.DamageRegion.{take_touching}

-- The edges of an output are numbers of 32 bits.
abbrev pub IsOutput : Rectangle → Type 0
IsOutput o =
    (negsuc 2147483647 ≤ℤ o.x)
    × (right o ≤ℤ pos 2147483647)
    × (negsuc 2147483647 ≤ℤ o.y)
    × (bottom o ≤ℤ pos 2147483647)

module _ (o r : Rectangle) (output : IsOutput o) (inner : Inner o r) where
  pub inner_valid : (has_valid_extents r ≡ true) × (is_empty r ≡ false)
  unfolding has_valid_extents is_empty
  inner_valid =
      (ground (arith, +ℤ_parts r.x (pos r.width), +ℤ_parts r.y (pos r.height)), ground arith)

abbrev InRange : ℤ → Type 0
InRange a = (negsuc 2147483647 ≤ℤ a) × (a ≤ℤ pos 2147483647)

fits_min : (a b : ℤ) → InRange a → InRange b → coordinate_fits (min_ℤ a b) ≡ true
fits_min a b h k = ground arith

fits_max : (a b : ℤ) → InRange a → InRange b → coordinate_fits (max_ℤ a b) ≡ true
fits_max a b h k = ground arith

module _ (o r : Rectangle) (output : IsOutput o) (inner : Inner o r) where
  inner_range : InRange r.x × InRange r.y × InRange (right r) × InRange (bottom r)
  inner_range = ground (arith, +ℤ_parts r.x (pos r.width), +ℤ_parts r.y (pos r.height))

module _ (o l r : Rectangle) (output : IsOutput o) (hl : Inner o l) (hr : Inner o r) where
  pub bounding_union-Inner : bounding_union l r ≡ some (union_of l r)
  unfolding bounding_union
  bounding_union-Inner =
      let vl = inner_valid o l output hl in
      let vr = inner_valid o r output hr in
      let il = inner_range o l output hl in
      let ir = inner_range o r output hr in
      let f1 = fits_min l.x r.x il.0 ir.0 in
      let f2 = fits_min l.y r.y il.1 ir.1 in
      let f3 = fits_max (right l) (right r) il.2 ir.2 in
      let f4 = fits_max (bottom l) (bottom r) il.3 ir.3 in
      rw (vl.0, vl.1, vr.0, vr.1, f1, f2, f3, f4) refl

abbrev Taken : Rectangle → Rectangle → List Rectangle → Rectangle × List Rectangle → Type 0
Taken o c rs found =
    Inner o found.0
    × All (Inner o) found.1
    × (length rs ≡ suc (length found.1))
    × ((px py : ℤ) → covered rs px py ≡ (covers found.0 px py || covered found.1 px py))

pub take_touching_lem :
    (o c : Rectangle) (rs : List Rectangle) (found : Rectangle × List Rectangle)
    → All (Inner o) rs
    → take_touching c rs ≡ some found
    → Taken o c rs found
unfolding take_touching any_of
take_touching_lem o c [] found h e = absurd (ground arith)
take_touching_lem o c (r ∷ rs) found h e =
    elim (Bool-cases (overlaps_or_is_compatibly_adjacent c r)) [
      | inl b ↦
          let eq : (r, rs) ≡ found = ground (arith, b, e) in
          rw (sym eq) (h.0, h.1, refl, λ px py. refl)
      | inr b ↦ elim (Option-cases (take_touching c rs)) [
        | inl k ↦ absurd (ground (arith, b, e, k))
        | inr ((f, qs), k) ↦
            let ih = take_touching_lem o c rs (f, qs) h.1 k in
            let eq : (f, r ∷ qs) ≡ found = ground (arith, b, e, k) in
            rw (sym eq)
              (ih.0, (h.0, ih.1), omega (arith, ih.2), λ px py. ground (arith, ih.3 px py))
      ]
    ]

pub All-append :
    (P : Rectangle → Type 0) (xs ys : List Rectangle) → All P xs → All P ys → All P (xs ++ ys)
All-append P [] ys h k = k
All-append P (x ∷ xs) ys h k = (h.0, All-append P xs ys h.1 k)

pub covered_one : (r : Rectangle) (px py : ℤ) → covered (r ∷ []) px py ≡ covers r px py
unfolding any_of
covered_one r px py = ground arith

abbrev pub Grown : Rectangle → Rectangle → List Rectangle → Rectangle × List Rectangle → Type 0
Grown o c rs grown =
    Inner o grown.0
    × All (Inner o) grown.1
    × (length grown.1 ≤ length rs)
    × ((px py : ℤ)
        → (covers c px py || covered rs px py) ≡ true
        → (covers grown.0 px py || covered grown.1 px py) ≡ true)
