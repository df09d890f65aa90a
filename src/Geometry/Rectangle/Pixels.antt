-- ===== src/Geometry/Rectangle/Pixels.antt =====
-- What the rectangle operations do to the pixels, one axis at a time.
use glasswyrm.Prelude.Sort.{bit, place, sort}
use glasswyrm.Prelude.{
  List, [], ◌∷◌, ◌++◌, any_of, ltb, refl, Bool-cases, inl, inr, Bool, false, Option, none, some,
  ◌≡◌, ◌&&◌, arith, ◌+◌,
}
use glasswyrm.Prelude.Int.{ℤ, pos, ◌+ℤ◌, ◌≤ℤ◌, max_ℤ, min_ℤ, leb_ℤ, +ℤ_parts, -ℤ_parts, eq_of_parts}
use glasswyrm.Geometry.Rectangle.{
  Rectangle, right, bottom, extent, between, intersect, within, covers, covered, layers,
}

pub add-extent : (a b : ℤ) → a ≤ℤ b → a +ℤ pos (extent a b) ≡ b
add-extent a b h =
    eq_of_parts (a +ℤ pos (extent a b)) b
      (ground (arith, +ℤ_parts a (pos (extent a b)), -ℤ_parts b a))

within-max-min : (a b c d p : ℤ) → within (max_ℤ a b) (min_ℤ c d) p ≡ (within a c p && within b d p)
unfolding within
within-max-min a b c d p = ground arith

pub within_nothing : (a b p : ℤ) → b ≤ℤ a → within a b p ≡ false
unfolding within
within_nothing a b p h = ground arith

-- The pixels that an optional rectangle covers.
abbrev pub covered_by : Option Rectangle → ℤ → ℤ → Bool
covered_by none px py = false
covered_by (some r) px py = covers r px py

module _ (x1 y1 x2 y2 : ℤ) (wide : x1 ≤ℤ x2) (high : y1 ≤ℤ y2) where
  pub covers-between :
      (px py : ℤ) → covers (between x1 y1 x2 y2) px py ≡ (within x1 x2 px && within y1 y2 py)
  unfolding covers
  covers-between px py = rw (add-extent x1 x2 wide) (rw (add-extent y1 y2 high) refl)

-- The intersection covers exactly the pixels that both rectangles cover.
pub covered_by-intersect :
    (l r : Rectangle) (px py : ℤ)
    → covered_by (intersect l r) px py ≡ (covers l px py && covers r px py)
unfolding intersect covers
covered_by-intersect l r px py =
    let x1 = max_ℤ l.x r.x in
    let y1 = max_ℤ l.y r.y in
    let x2 = min_ℤ (right l) (right r) in
    let y2 = min_ℤ (bottom l) (bottom r) in
    let wx = within-max-min l.x r.x (right l) (right r) px in
    let wy = within-max-min l.y r.y (bottom l) (bottom r) py in
    elim (Bool-cases (leb_ℤ x2 x1)) [
      | inl e ↦ rw e (ground (arith, wx, within_nothing x1 x2 px (ground arith)))
      | inr e ↦ rw e (elim (Bool-cases (leb_ℤ y2 y1)) [
        | inl e' ↦ rw e' (ground (arith, wy, within_nothing y1 y2 py (ground arith)))
        | inr e' ↦
            rw e' (
              ground
                (arith, wx, wy, covers-between x1 y1 x2 y2 (ground arith) (ground arith) px py))
      ])
    ]

pub layers-append :
    (rs qs : List Rectangle) (px py : ℤ)
    → layers (rs ++ qs) px py ≡ layers rs px py + layers qs px py
unfolding layers
layers-append [] qs px py = omega arith
layers-append (r ∷ rs) qs px py = omega (arith, layers-append rs qs px py)

layers-place :
    (before : Rectangle → Rectangle → Bool) (r : Rectangle) (rs : List Rectangle) (px py : ℤ)
    → layers (place before r rs) px py ≡ bit (covers r px py) + layers rs px py
unfolding layers place
layers-place before r [] px py = refl
layers-place before r (q ∷ qs) px py = ground (arith, layers-place before r qs px py)

pub layers-sort :
    (before : Rectangle → Rectangle → Bool) (rs : List Rectangle) (px py : ℤ)
    → layers (sort before rs) px py ≡ layers rs px py
unfolding layers sort
layers-sort before [] px py = refl
layers-sort before (r ∷ rs) px py =
    ground (arith, layers-place before r (sort before rs) px py, layers-sort before rs px py)

-- A pixel is covered exactly if a rectangle lies over it.
pub covered-layers : (rs : List Rectangle) (px py : ℤ) → covered rs px py ≡ ltb 0 (layers rs px py)
unfolding layers any_of
covered-layers [] px py = ground arith
covered-layers (r ∷ rs) px py = ground (arith, covered-layers rs px py)
