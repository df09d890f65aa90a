-- ===== src/Server/XfixesRegion/Regular.antt =====
-- The rectangles that a region holds: not empty, and with edges that are 32-bit numbers.
use glasswyrm.Prelude.{
  ℕ, Bool, true, false, List, [], ◌∷◌, ◌++◌, ◌≡◌, ◌<◌, refl, Option-cases, inl, inr, arith, All,
}
use glasswyrm.Prelude.Int.{ℤ, pos, negsuc, ◌+ℤ◌, ◌≤ℤ◌, ◌<ℤ◌, ltb_ℤ, +ℤ_parts, -ℤ_parts}
use glasswyrm.Geometry.Rectangle.{Rectangle, right, bottom, extent, intersect}
use glasswyrm.Geometry.Rectangle.Pixels.{add-extent}
use glasswyrm.Server.XfixesRegion.{valid, piece, pieces_around, subtract_one, int32_max}
use glasswyrm.Server.XfixesRegion.Pieces.{Inside, intersect-Inside}

abbrev pub int32_min : ℤ
int32_min = negsuc 2147483647

-- The coordinates are int32_t.
abbrev pub Fits : Rectangle → Type 0
Fits r = (int32_min ≤ℤ r.x) × (int32_min ≤ℤ r.y)

abbrev pub IsRegular : Rectangle → Type 0
IsRegular r =
    (int32_min ≤ℤ r.x)
    × (int32_min ≤ℤ r.y)
    × (0 < r.width)
    × (0 < r.height)
    × (right r ≤ℤ int32_max)
    × (bottom r ≤ℤ int32_max)

pub valid-IsRegular : (r : Rectangle) → Fits r → valid r ≡ true → IsRegular r
unfolding valid
valid-IsRegular r f h = ground arith

extent-positive : (a b : ℤ) → ltb_ℤ a b ≡ true → 0 < extent a b
extent-positive a b h = ground (arith, -ℤ_parts b a)

pub All-append {ℓ κ} :
    {A : Type ℓ} (P : A → Type κ) (xs ys : List A) → All P xs → All P ys → All P (xs ++ ys)
All-append P [] ys h k = k
All-append P (x ∷ xs) ys h k = (h.0, All-append P xs ys h.1 k)

All-piece : (b : Bool) (r : Rectangle) → (b ≡ true → IsRegular r) → All IsRegular (piece b r)
All-piece true r h = (h refl, tt)
All-piece false r h = tt

add_wide : (a : ℤ) (n : ℕ) → a <ℤ (a +ℤ pos n) → 0 < n
add_wide a n h = ground (arith, +ℤ_parts a (pos n))

module _ (s o : Rectangle) (regular : IsRegular s) (inside : Inside o s) where
  pieces_around-IsRegular : All IsRegular (pieces_around s o)
  unfolding pieces_around
  pieces_around-IsRegular =
      let y1 = s.y in
      let y2 = o.y in
      let y3 = bottom o in
      let y4 = bottom s in
      let x1 = s.x in
      let x2 = o.x in
      let x3 = right o in
      let x4 = right s in
      let above : Rectangle = record s { height = extent y1 y2 } in
      let below : Rectangle = record s { y = y3; height = extent y3 y4 } in
      let left : Rectangle = record o { x = x1; width = extent x1 x2 } in
      let rest : Rectangle = record o { x = x3; width = extent x3 x4 } in
      let wide = add_wide o.x o.width inside.1 in
      let high = add_wide o.y o.height inside.4 in
      let p1 = piece (ltb_ℤ y1 y2) above in
      let p2 = piece (ltb_ℤ y3 y4) below in
      let p3 = piece (ltb_ℤ x1 x2) left in
      let p4 = piece (ltb_ℤ x3 x4) rest in
      let a1 =
        All-piece (ltb_ℤ y1 y2) above
          (λ e. rw (add-extent y1 y2 (omega arith)) (ground (arith, extent-positive y1 y2 e))) in
      let a2 =
        All-piece (ltb_ℤ y3 y4) below
          (λ e. rw (add-extent y3 y4 (omega arith)) (ground (arith, extent-positive y3 y4 e))) in
      let a3 =
        All-piece (ltb_ℤ x1 x2) left
          (λ e. rw (add-extent x1 x2 (omega arith)) (ground (arith, extent-positive x1 x2 e))) in
      let a4 =
        All-piece (ltb_ℤ x3 x4) rest
          (λ e. rw (add-extent x3 x4 (omega arith)) (ground (arith, extent-positive x3 x4 e))) in
      All-append IsRegular p1 (p2 ++ (p3 ++ p4)) a1
        (All-append IsRegular p2 (p3 ++ p4) a2 (All-append IsRegular p3 p4 a3 a4))

pub subtract_one-IsRegular : (s r : Rectangle) → IsRegular s → All IsRegular (subtract_one s r)
unfolding subtract_one
subtract_one-IsRegular s r h = elim (Option-cases (intersect s r)) [
  | inl e ↦ ground (arith, e, h)
  | inr (o, e) ↦ ground (arith, e, pieces_around-IsRegular s o h (intersect-Inside s r o e))
]
