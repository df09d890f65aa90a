-- ===== src/Server/XfixesRegion/Pairs.antt =====
-- Two regular rectangles that are merged cover what they covered.
use glasswyrm.Prelude.{
  ℕ, true, [], ◌∷◌, some, ◌≡◌, ◌+◌, ◌%◌, ◌^◌, sym, ap, subst, ◌∙◌, inl, inr, Bool-cases, ◌&&◌,
  arith, ◌==◌,
}
use glasswyrm.Prelude.Int.{ℤ, pos, negsuc, ◌+ℤ◌, ◌≤ℤ◌, eqb_ℤ, +ℤ_parts, eq_of_parts}
use glasswyrm.Prelude.Sort.{bit}
use glasswyrm.Geometry.Rectangle.{Rectangle, right, bottom, within, covers, layers}
use glasswyrm.Server.XfixesRegion.{int32_max, merge_pair}
use glasswyrm.Server.XfixesRegion.Regular.{IsRegular, int32_min}

-- Two sizes of one rectangle side by side.
add_twice : (a : ℤ) (m n : ℕ) → a +ℤ pos (m + n) ≡ (a +ℤ pos m) +ℤ pos n
add_twice a m n =
    eq_of_parts (a +ℤ pos (m + n)) ((a +ℤ pos m) +ℤ pos n)
      (ground (arith, +ℤ_parts a (pos (m + n)), +ℤ_parts a (pos m), +ℤ_parts (a +ℤ pos m) (pos n)))

eqb_eq : (a b : ℤ) → eqb_ℤ a b ≡ true → a ≡ b
eqb_eq a b h = eq_of_parts a b (ground arith)

size_fits :
    (a : ℤ) (m n : ℕ)
    → negsuc 2147483647 ≤ℤ a
    → ((a +ℤ pos m) +ℤ pos n) ≤ℤ pos 2147483647
    → (m + n) % 2 ^ 32 ≡ m + n
size_fits a m n h k = ground (arith, +ℤ_parts a (pos m), +ℤ_parts (a +ℤ pos m) (pos n))

joined_edge :
    (a b : ℤ) (m n : ℕ)
    → int32_min ≤ℤ a
    → a +ℤ pos m ≡ b
    → (b +ℤ pos n) ≤ℤ int32_max
    → a +ℤ pos ((m + n) % 2 ^ 32) ≡ b +ℤ pos n
joined_edge a b m n h e k =
    let joint = ap (λ (c : ℤ). c +ℤ pos n) e in
    let low : ((a +ℤ pos m) +ℤ pos n) ≤ℤ int32_max =
      subst (λ (c : ℤ). (c +ℤ pos n) ≤ℤ int32_max) (sym e) k in
    rw (size_fits a m n h low) (add_twice a m n ∙ joint)

within_join :
    (a b c p : ℤ) → a ≤ℤ b → b ≤ℤ c → bit (within a b p) + bit (within b c p) ≡ bit (within a c p)
unfolding within
within_join a b c p h k = ground arith

abbrev Merges : Rectangle → Rectangle → Rectangle → Type 0
Merges l r m = IsRegular m × ((px py : ℤ) → layers (m ∷ []) px py ≡ layers (l ∷ r ∷ []) px py)

module _ (l r : Rectangle) (hl : IsRegular l) (hr : IsRegular r) where
  Merges-row :
      l.y ≡ r.y
      → l.height ≡ r.height
      → right l ≡ r.x
      → Merges l r (record l { width = (l.width + r.width) % 2 ^ 32 })
  unfolding layers covers
  Merges-row ey eh ex =
      let edge = joined_edge l.x r.x l.width r.width hl.0 ex hr.4 in
      let size =
        size_fits l.x l.width r.width hl.0
          (subst (λ (c : ℤ). (c +ℤ pos r.width) ≤ℤ int32_max) (sym ex) hr.4) in
      (
        rw edge (rw size (ground arith)),
        λ px py. rw edge (
            ground (
              arith,
              within_join l.x r.x (right r) px (ground (arith, +ℤ_parts l.x (pos l.width)))
                  (ground (arith, +ℤ_parts r.x (pos r.width))),
            )),
      )

  Merges-column :
      l.x ≡ r.x
      → l.width ≡ r.width
      → bottom l ≡ r.y
      → Merges l r (record l { height = (l.height + r.height) % 2 ^ 32 })
  unfolding layers covers
  Merges-column ex ew ey =
      let edge = joined_edge l.y r.y l.height r.height hl.1 ey hr.5 in
      let size =
        size_fits l.y l.height r.height hl.1
          (subst (λ (c : ℤ). (c +ℤ pos r.height) ≤ℤ int32_max) (sym ey) hr.5) in
      (
        rw edge (rw size (ground arith)),
        λ px py. rw edge (
            ground (
              arith,
              within_join l.y r.y (bottom r) py (ground (arith, +ℤ_parts l.y (pos l.height)))
                  (ground (arith, +ℤ_parts r.y (pos r.height))),
            )),
      )

  pub merge_pair-Merges : (m : Rectangle) → merge_pair l r ≡ some m → Merges l r m
  unfolding merge_pair
  merge_pair-Merges m h =
      elim (Bool-cases (eqb_ℤ l.y r.y && (l.height == r.height && eqb_ℤ (right l) r.x))) [
        | inl e ↦
            let em : m ≡ record l { width = (l.width + r.width) % 2 ^ 32 } = ground arith in
            rw em (
              Merges-row (eqb_eq l.y r.y (ground arith)) (ground arith)
                (eqb_eq (right l) r.x (ground arith)))
        | inr e ↦
            elim (Bool-cases (eqb_ℤ l.x r.x && (l.width == r.width && eqb_ℤ (bottom l) r.y))) [
              | inl e' ↦
                  let em : m ≡ record l { height = (l.height + r.height) % 2 ^ 32 } =
                    ground arith in
                  rw em (
                    Merges-column (eqb_eq l.x r.x (ground arith)) (ground arith)
                      (eqb_eq (bottom l) r.y (ground arith)))
              | inr e' ↦ absurd (ground arith)
            ]
      ]
