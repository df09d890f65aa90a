-- ===== src/Geometry/Rectangle/Unions.antt =====
-- The bounding rectangle of two rectangles inside a third.
use glasswyrm.Prelude.{
  Bool, true, List, [], ◌∷◌, ◌++◌, some, ◌≡◌, ◌<◌, ◌||◌, arith, Bool-cases, inl, inr, any_of, subst,
}
use glasswyrm.Prelude.Int.{ℤ, pos, ◌≤ℤ◌, ◌<ℤ◌, leb_ℤ, min_ℤ, max_ℤ, +ℤ_parts, -ℤ_parts}
use glasswyrm.Prelude.Sort.{place, sort}
use glasswyrm.Geometry.Rectangle.{
  Rectangle, right, bottom, extent, between, intersect, within, covers, covered,
}
use glasswyrm.Geometry.Rectangle.Pixels.{add-extent, covers-between}

-- Not empty, and inside the rectangle o.
abbrev pub Inner : Rectangle → Rectangle → Type 0
Inner o r =
    (o.x ≤ℤ r.x)
    × (right r ≤ℤ right o)
    × (o.y ≤ℤ r.y)
    × (bottom r ≤ℤ bottom o)
    × (0 < r.width)
    × (0 < r.height)

abbrev pub union_of : Rectangle → Rectangle → Rectangle
union_of l r =
    between (min_ℤ l.x r.x) (min_ℤ l.y r.y) (max_ℤ (right l) (right r))
      (max_ℤ (bottom l) (bottom r))

extent_positive : (a b : ℤ) → a <ℤ b → 0 < extent a b
extent_positive a b h = ground (arith, -ℤ_parts b a)

module _ (x1 y1 x2 y2 : ℤ) (wide : x1 <ℤ x2) (high : y1 <ℤ y2) where
  between-Inner :
      (o : Rectangle)
      → o.x ≤ℤ x1
      → x2 ≤ℤ right o
      → o.y ≤ℤ y1
      → y2 ≤ℤ bottom o
      → Inner o (between x1 y1 x2 y2)
  between-Inner o h1 h2 h3 h4 = rw (add-extent x1 x2 (omega arith)) (
      rw (add-extent y1 y2 (omega arith))
        (h1, h2, h3, h4, extent_positive x1 x2 wide, extent_positive y1 y2 high))

within_wider : (a b c d p : ℤ) → c ≤ℤ a → b ≤ℤ d → within a b p ≡ true → within c d p ≡ true
unfolding within
within_wider a b c d p h k w = ground arith

module _ (o l r : Rectangle) (hl : Inner o l) (hr : Inner o r) where
  pub union_of-Inner : Inner o (union_of l r)
  union_of-Inner =
      between-Inner (min_ℤ l.x r.x) (min_ℤ l.y r.y) (max_ℤ (right l) (right r))
        (max_ℤ (bottom l) (bottom r)) (ground (arith, +ℤ_parts l.x (pos l.width)))
        (ground (arith, +ℤ_parts l.y (pos l.height))) o (ground arith) (ground arith) (ground arith)
        (ground arith)

  -- The bounding rectangle covers what the two cover.
  pub covers-union_of :
      (px py : ℤ) → (covers l px py || covers r px py) ≡ true → covers (union_of l r) px py ≡ true
  unfolding covers
  covers-union_of px py h =
      let x1 = min_ℤ l.x r.x in
      let y1 = min_ℤ l.y r.y in
      let x2 = max_ℤ (right l) (right r) in
      let y2 = max_ℤ (bottom l) (bottom r) in
      let whole =
        covers-between x1 y1 x2 y2 (ground (arith, +ℤ_parts l.x (pos l.width)))
          (ground (arith, +ℤ_parts l.y (pos l.height))) px py in
      elim (Bool-cases (covers l px py)) [
        | inl e ↦ ground (
          arith,
          whole,
          e,
          within_wider l.x (right l) x1 x2 px (ground arith) (ground arith),
          within_wider l.y (bottom l) y1 y2 py (ground arith) (ground arith),
        )
        | inr e ↦ ground (
          arith,
          whole,
          e,
          h,
          within_wider r.x (right r) x1 x2 px (ground arith) (ground arith),
          within_wider r.y (bottom r) y1 y2 py (ground arith) (ground arith),
        )
      ]

pub covers-Inner :
    (o r : Rectangle) (px py : ℤ) → Inner o r → covers r px py ≡ true → covers o px py ≡ true
unfolding covers
covers-Inner o r px py h c = ground (
  arith,
  within_wider r.x (right r) o.x (right o) px h.0 h.1,
  within_wider r.y (bottom r) o.y (bottom o) py h.2 h.3,
)

covered-place :
    (before : Rectangle → Rectangle → Bool) (r : Rectangle) (rs : List Rectangle) (px py : ℤ)
    → covered (place before r rs) px py ≡ (covers r px py || covered rs px py)
unfolding any_of place
covered-place before r [] px py = ground arith
covered-place before r (q ∷ qs) px py = ground (arith, covered-place before r qs px py)

pub covered-sort :
    (before : Rectangle → Rectangle → Bool) (rs : List Rectangle) (px py : ℤ)
    → covered (sort before rs) px py ≡ covered rs px py
unfolding any_of sort
covered-sort before [] px py = ground arith
covered-sort before (r ∷ rs) px py =
    ground (arith, covered-place before r (sort before rs) px py, covered-sort before rs px py)

pub covered-append :
    (rs qs : List Rectangle) (px py : ℤ)
    → covered (rs ++ qs) px py ≡ (covered rs px py || covered qs px py)
unfolding any_of
covered-append [] qs px py = ground arith
covered-append (r ∷ rs) qs px py = ground (arith, covered-append rs qs px py)

-- What two rectangles have in common lies inside each.
pub intersect-Inner : (l r o : Rectangle) → intersect l r ≡ some o → Inner l o × Inner r o
unfolding intersect
intersect-Inner l r o h =
    let x1 = max_ℤ l.x r.x in
    let y1 = max_ℤ l.y r.y in
    let x2 = min_ℤ (right l) (right r) in
    let y2 = min_ℤ (bottom l) (bottom r) in
    elim (Bool-cases (leb_ℤ x2 x1 || leb_ℤ y2 y1)) [
      | inl e ↦ absurd (ground arith)
      | inr e ↦
          let wide : x1 <ℤ x2 = ground arith in
          let high : y1 <ℤ y2 = ground arith in
          let eo : between x1 y1 x2 y2 ≡ o = ground arith in
          let inside = between-Inner x1 y1 x2 y2 wide high in
          subst (λ (q : Rectangle). Inner l q × Inner r q) eo
            (
              inside l (ground arith) (ground arith) (ground arith) (ground arith),
              inside r (ground arith) (ground arith) (ground arith) (ground arith),
            )
    ]
