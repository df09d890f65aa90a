-- ===== src/Compositor/Rectangle/Agreement.antt =====
-- The two implementations of the intersection agree.
use glasswyrm.Prelude.{Bool, true, none, ◌≡◌, ◌==◌, ◌||◌, arith, Bool-cases, inl, inr, refl, ◌⊎◌, ℕ}
use glasswyrm.Prelude.Int.{ℤ, pos, ◌+ℤ◌, leb_ℤ, min_ℤ, max_ℤ, +ℤ_parts}
use glasswyrm.Geometry.Rectangle.{Rectangle, right, bottom, intersect}
use glasswyrm.Compositor.Rectangle.{is_empty, has_valid_extents, intersection}

-- An axis on which one of the two is empty.
module _ (a b c : ℤ) (n : ℕ) (empty : n ≡ 0) where
  axis_left : leb_ℤ (min_ℤ (a +ℤ pos n) c) (max_ℤ a b) ≡ true
  axis_left = ground (arith, +ℤ_parts a (pos n))

  axis_right : leb_ℤ (min_ℤ c (a +ℤ pos n)) (max_ℤ b a) ≡ true
  axis_right = ground (arith, +ℤ_parts a (pos n))

or_right : (p q : Bool) → q ≡ true → (p || q) ≡ true
or_right p q h = ground arith

is_empty-cases : (r : Rectangle) → is_empty r ≡ true → (r.width ≡ 0) ⊎ (r.height ≡ 0)
unfolding is_empty
is_empty-cases r h = elim (Bool-cases (r.width == 0)) [
  | inl e ↦ inl (ground arith)
  | inr e ↦ inr (ground arith)
]

module _ (l r : Rectangle) where
  intersect_empty_left : is_empty l ≡ true → intersect l r ≡ none
  unfolding intersect
  intersect_empty_left h = elim (is_empty-cases l h) [
    | inl e ↦ rw (axis_left l.x r.x (right r) l.width e) refl
    | inr e ↦
        rw
          (or_right (leb_ℤ (min_ℤ (right l) (right r)) (max_ℤ l.x r.x))
            (leb_ℤ (min_ℤ (bottom l) (bottom r)) (max_ℤ l.y r.y))
            (axis_left l.y r.y (bottom r) l.height e))
          refl
  ]

  intersect_empty_right : is_empty r ≡ true → intersect l r ≡ none
  unfolding intersect
  intersect_empty_right h = elim (is_empty-cases r h) [
    | inl e ↦ rw (axis_right r.x l.x (right l) r.width e) refl
    | inr e ↦
        rw
          (or_right (leb_ℤ (min_ℤ (right l) (right r)) (max_ℤ l.x r.x))
            (leb_ℤ (min_ℤ (bottom l) (bottom r)) (max_ℤ l.y r.y))
            (axis_right r.y l.y (bottom l) r.height e))
          refl
  ]

  -- The compositor's intersection and the server's give the same rectangle or none on any two
  -- rectangles whose extents are valid, the empty ones included.
  pub intersection-intersect :
      has_valid_extents l ≡ true → has_valid_extents r ≡ true → intersection l r ≡ intersect l r
  unfolding intersection intersect
  intersection-intersect h k = elim (Bool-cases (is_empty l)) [
    | inl e ↦ rw (intersect_empty_left e) (rw (e, intersection) refl)
    | inr e ↦ elim (Bool-cases (is_empty r)) [
      | inl e' ↦ rw (intersect_empty_right e') (rw (e, e', intersection) refl)
      | inr e' ↦ rw (e, e', h, k) refl
    ]
  ]
