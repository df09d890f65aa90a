-- ===== src/Server/XfixesRegion/Pieces.antt =====
-- What subtracting one rectangle from another leaves, pixel by pixel.
use glasswyrm.Prelude.{
  Bool, ◌++◌, Option, some, ◌≡◌, ap, ◌+◌, refl, Bool-cases, Option-cases, inl, inr, ◌&&◌, ◌||◌, not,
  arith,
}
use glasswyrm.Prelude.Int.{ℤ, ◌≤ℤ◌, ◌<ℤ◌, ltb_ℤ, leb_ℤ, max_ℤ, min_ℤ}
use glasswyrm.Prelude.Sort.{bit}
use glasswyrm.Geometry.Rectangle.{
  Rectangle, right, bottom, extent, between, intersect, within, covers, layers,
}
use glasswyrm.Geometry.Rectangle.Pixels.{
  add-extent, within_nothing, covered_by, covered_by-intersect, layers-append,
}
use glasswyrm.Server.XfixesRegion.{piece, pieces_around, subtract_one}

-- An overlap lies inside the source.
abbrev pub Inside : Rectangle → Rectangle → Type 0
Inside o s =
    (s.x ≤ℤ o.x)
    × (o.x <ℤ right o)
    × (right o ≤ℤ right s)
    × (s.y ≤ℤ o.y)
    × (o.y <ℤ bottom o)
    × (bottom o ≤ℤ bottom s)

pub intersect-Inside : (l r o : Rectangle) → intersect l r ≡ some o → Inside o l
unfolding intersect
intersect-Inside l r o h =
    let x1 = max_ℤ l.x r.x in
    let y1 = max_ℤ l.y r.y in
    let x2 = min_ℤ (right l) (right r) in
    let y2 = min_ℤ (bottom l) (bottom r) in
    elim (Bool-cases (leb_ℤ x2 x1 || leb_ℤ y2 y1)) [
      | inl e ↦ absurd (ground arith)
      | inr e ↦
          let wide : x1 <ℤ x2 = ground arith in
          let high : y1 <ℤ y2 = ground arith in
          let eo : o ≡ between x1 y1 x2 y2 = ground arith in
          rw eo (
            rw (add-extent x1 x2 (omega arith))
              (rw (add-extent y1 y2 (omega arith)) (ground arith)))
    ]

-- Three intervals side by side cover each place of their union once.
module _ (a b c d p : ℤ) (ab : a ≤ℤ b) (bc : b ≤ℤ c) (cd : c ≤ℤ d) where
  within_split : bit (within a d p) ≡ bit (within a b p) + bit (within b c p) + bit (within c d p)
  unfolding within
  within_split = ground arith

-- A piece that is made only where its interval is not empty covers the same as if always made.
guarded :
    (a b p px py : ℤ) (other : Bool) (r : Rectangle)
    → covers r px py ≡ (other && within a b p)
    → layers (piece (ltb_ℤ a b) r) px py ≡ bit (other && within a b p)
unfolding layers
guarded a b p px py other r h = elim (Bool-cases (ltb_ℤ a b)) [
  | inl e ↦ rw e (ground arith)
  | inr e ↦ rw e (ground (arith, within_nothing a b p (ground arith)))
]

module _ (s o : Rectangle) (inside : Inside o s) (px py : ℤ) where
  layers-pieces_around :
      layers (pieces_around s o) px py + bit (covers o px py) ≡ bit (covers s px py)
  unfolding pieces_around covers
  layers-pieces_around =
      let y1 = s.y in
      let y2 = o.y in
      let y3 = bottom o in
      let y4 = bottom s in
      let x1 = s.x in
      let x2 = o.x in
      let x3 = right o in
      let x4 = right s in
      let row = within x1 x4 px in
      let column = within y2 y3 py in
      let above : Rectangle = record s { height = extent y1 y2 } in
      let below : Rectangle = record s { y = y3; height = extent y3 y4 } in
      let left : Rectangle = record o { x = x1; width = extent x1 x2 } in
      let rest : Rectangle = record o { x = x3; width = extent x3 x4 } in
      let e1 = guarded y1 y2 py px py row above (rw (add-extent y1 y2 (omega arith)) refl) in
      let e2 = guarded y3 y4 py px py row below (rw (add-extent y3 y4 (omega arith)) refl) in
      let e3 =
        guarded x1 x2 px px py column left (rw (add-extent x1 x2 (omega arith)) (ground arith)) in
      let e4 =
        guarded x3 x4 px px py column rest (rw (add-extent x3 x4 (omega arith)) (ground arith)) in
      ground (
        arith,
        e1,
        e2,
        e3,
        e4,
        layers-append (piece (ltb_ℤ y1 y2) above)
            (piece (ltb_ℤ y3 y4) below ++ (piece (ltb_ℤ x1 x2) left ++ piece (ltb_ℤ x3 x4) rest)) px
            py,
        layers-append (piece (ltb_ℤ y3 y4) below)
            (piece (ltb_ℤ x1 x2) left ++ piece (ltb_ℤ x3 x4) rest) px py,
        layers-append (piece (ltb_ℤ x1 x2) left) (piece (ltb_ℤ x3 x4) rest) px py,
        within_split x1 x2 x3 x4 px inside.0 (omega arith) inside.2,
        within_split y1 y2 y3 y4 py inside.3 (omega arith) inside.5,
      )

-- Subtracting leaves exactly the pixels of the source that the removed rectangle does not cover, each
-- in one piece.
pub layers-subtract_one :
    (s r : Rectangle) (px py : ℤ)
    → layers (subtract_one s r) px py ≡ bit (covers s px py && not (covers r px py))
unfolding subtract_one layers
layers-subtract_one s r px py =
    let both = covered_by-intersect s r px py in
    elim (Option-cases (intersect s r)) [
      | inl e ↦
          let by_none = ap (λ (o : Option Rectangle). covered_by o px py) e in
          ground (arith, e, both, by_none)
      | inr (o, e) ↦
          let by_some = ap (λ (o : Option Rectangle). covered_by o px py) e in
          let around = layers-pieces_around s o (intersect-Inside s r o e) px py in
          ground (arith, e, both, by_some, around)
    ]
